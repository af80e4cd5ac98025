-- ===== src/Core/Vocabulary.antt =====
-- Results of a ladder of tests, or of a match on a text, stay among the results written there.
use mathlib.Core.Bool.{and-eq-true_iff}
use revtern.Prelude.{
  String, Bool, true, false, ◌&&◌, ◌||◌, not, eq_iff, arith, All, Bool-cases, inl, inr, some, ◌≡◌,
  refl, List, [], ◌∷◌, str_eq, unwrap_or, if◌then◌else◌,
}
use revtern.Core.{one_of, first_case, match_arm}

abbrev pub all_among : {A : Type 0} → List (A × String) → List String → Bool
all_among [] words = true
all_among ((_, a) ∷ cases) words = one_of a words && all_among cases words

pub first_case_among :
    (cases : List (Bool × String)) (default : String) (words : List String)
    → all_among cases words ≡ true
    → one_of default words ≡ true
    → one_of (first_case cases default) words ≡ true
unfolding first_case
first_case_among [] default words h k = k
first_case_among ((true, a) ∷ cases) default words h k = ((and-eq-true_iff _ _).0 h).0
first_case_among ((false, a) ∷ cases) default words h k =
    first_case_among cases default words ((and-eq-true_iff _ _).0 h).1 k

pub match_arm_among :
    (s : String) (arms : List (String × String)) (default : String) (words : List String)
    → all_among arms words ≡ true
    → one_of default words ≡ true
    → one_of (unwrap_or (match_arm s arms) default) words ≡ true
unfolding match_arm
match_arm_among s [] default words h k = k
match_arm_among s ((p, a) ∷ arms) default words h k =
    (elim (str_eq s p)
      as (λ b. one_of (unwrap_or (if b then some a else match_arm s arms) default) words ≡ true) [
        | true ↦ ((and-eq-true_iff _ _).0 h).0
        | false ↦ match_arm_among s arms default words ((and-eq-true_iff _ _).0 h).1 k
      ])

-- No arm but that of `p` answers `w`.
abbrev pub sole : String → String → List (String × String) → Bool
sole p w [] = true
sole p w ((q, a) ∷ arms) = (str_eq q p || not (str_eq a w)) && sole p w arms

-- A text without that arm is not answered with its word.
pub match_arm-sole :
    (s p w default : String) (arms : List (String × String))
    → sole p w arms ≡ true
    → str_eq default w ≡ false
    → str_eq s p ≡ false
    → str_eq (unwrap_or (match_arm s arms) default) w ≡ false
unfolding match_arm
match_arm-sole s p w default [] h k apart = k
match_arm-sole s p w default ((q, a) ∷ arms) h k apart =
    let rest = match_arm-sole s p w default arms ((and-eq-true_iff _ _).0 h).1 k apart in
    elim (Bool-cases (str_eq s q)) [
      | inl here ↦
          let own : str_eq q p ≡ false = rw ((eq_iff s q).0 here) at apart in
          rw here
            (ground (arith, own, ((and-eq-true_iff (str_eq q p || not (str_eq a w)) _).0 h).0))
      | inr there ↦ rw there rest
    ]

-- The two lists share no word.
abbrev pub apart : List String → List String → Bool
apart [] ys = true
apart (x ∷ xs) ys = not (one_of x ys) && apart xs ys

pub one_of-apart :
    (s : String) (xs ys : List String) → apart xs ys ≡ true → one_of s xs && one_of s ys ≡ false
one_of-apart s [] ys h = refl
one_of-apart s (x ∷ xs) ys h = elim (Bool-cases (str_eq s x)) [
  | inl same ↦
      let none_there = ((and-eq-true_iff (not (one_of x ys)) _).0 h).0 in
      rw same (rw ((eq_iff s x).0 same) (ground (arith, none_there)))
  | inr other ↦ rw other (one_of-apart s xs ys ((and-eq-true_iff (not (one_of x ys)) _).0 h).1)
]

-- What holds of each word of a list holds of a text that is one of them.
pub one_of-All :
    (P : String → Type 0) (words : List String)
    → All P words
    → (s : String) → one_of s words ≡ true
    → P s
one_of-All P [] all s h = cc h
one_of-All P (w ∷ words) all s h = elim (Bool-cases (str_eq s w)) [
  | inl same ↦ rw ((eq_iff s w).0 same) all.0
  | inr other ↦ one_of-All P words all.1 s (rw other at h)
]
