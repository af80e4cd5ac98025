-- ===== src/Examples/Verification/Compares.antt =====
-- The comparison of bytes on the platform of numbered documents is the one that is relied on.
use revtern.Prelude.{ℕ, true, List, [], ◌∷◌, ◌≡◌, refl, nat_eq, and-true, arith}
use revtern.Api.Verification.Secret.{ComparesBytes}
use revtern.Examples.Service.{service_platform, service_outside, bytes_equal}

same_number : (m n : ℕ) → nat_eq m n ≡ true → m ≡ n
same_number m n h = ground arith

number_itself : (n : ℕ) → nat_eq n n ≡ true
number_itself n = ground arith

equal_bytes : (xs ys : List ℕ) → bytes_equal xs ys ≡ true → xs ≡ ys
equal_bytes [] [] h = refl
equal_bytes [] (y ∷ ys) h = cc h
equal_bytes (x ∷ xs) [] h = cc h
equal_bytes (x ∷ xs) (y ∷ ys) h =
    let (first, rest) = and-true (nat_eq x y) (bytes_equal xs ys) h in
    cc (same_number x y first, equal_bytes xs ys rest)

bytes_themselves : (xs : List ℕ) → bytes_equal xs xs ≡ true
bytes_themselves [] = refl
bytes_themselves (x ∷ xs) = rw (number_itself x) (bytes_themselves xs)

pub service_outside-ComparesBytes : ComparesBytes service_platform service_outside
service_outside-ComparesBytes xs ys same_length =
    (equal_bytes xs ys, λ same. rw same (bytes_themselves ys))
