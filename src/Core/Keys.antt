-- ===== src/Core/Keys.antt =====
-- `source_product_key` tells products apart as long as the names hold no colon.
use Prim.Native.Char.{code}
use mathlib.Core.Bool.{and-eq-true_iff}
use text.Mathlib.TextLemmas.{append_assoc, append_cancel_left, nil-append, cons-append}
use revtern.Prelude.{
  String, Bool, true, not, ◌&&◌, ◌≡◌, ◌≢◌, refl, sym, ap, ◌∙◌, Option, arith, str_eq, eq_iff,
  if◌then◌else◌, unwrap_or, Bool-cases, inl, inr, nat_eq,
}
use revtern.Prelude.Text.{before}
use revtern.Core.{◌+++◌, source_product_key}

-- The part of a key behind the application: Google Play adds the base plan.
unfoldable pub key_tail : String → String → Option String → String
key_tail source_type product_id base_plan_id =
    if str_eq source_type "google_play"
    then product_id +++ ":" +++ unwrap_or base_plan_id ""
    else product_id

-- The base plan as far as the source type has one.
abbrev pub plan_of : String → Option String → String
plan_of source_type base_plan_id =
    if str_eq source_type "google_play" then unwrap_or base_plan_id "" else ""

abbrev pub NoColon : String → Type 0
NoColon String.[] = Unit
NoColon (String.◌∷◌ c s) = (code c ≢ b':') × NoColon s

-- The same as a test.
abbrev pub is_colon_free : String → Bool
is_colon_free String.[] = true
is_colon_free (String.◌∷◌ c s) = not (nat_eq (code c) b':') && is_colon_free s

pub is_colon_free-NoColon : (s : String) → is_colon_free s ≡ true → NoColon s
is_colon_free-NoColon String.[] h = tt
is_colon_free-NoColon (String.◌∷◌ c s) h =
    let (first, rest) = (and-eq-true_iff (not (nat_eq (code c) b':')) _).0 h in
    (ground (arith, first), is_colon_free-NoColon s rest)

-- Every branch builds the same shape from the source type, the application and the tail.
pub source_product_key_lem :
    (source_type : String) (source_app_id : Option String) (product_id : String)
    (base_plan_id : Option String)
    → source_product_key source_type source_app_id product_id base_plan_id
      ≡ source_type
        +++ ":"
        +++ unwrap_or source_app_id "unknown"
        +++ ":"
        +++ key_tail source_type product_id base_plan_id
unfolding source_product_key key_tail
source_product_key_lem s a p b =
    let app = unwrap_or a "unknown" in
    ground (
      arith,
      eq_iff s "google_play",
      eq_iff s "app_store",
      eq_iff s "revenuecat",
      eq_iff s "stripe",
      eq_iff s "paddle",
      eq_iff s "csv",
      eq_iff s "custom_api",
      append_assoc "google_play" ":" (app +++ ":" +++ p +++ ":" +++ unwrap_or b ""),
      append_assoc "app_store" ":" (app +++ ":" +++ p),
      append_assoc "revenuecat" ":" (app +++ ":" +++ p),
      append_assoc "stripe" ":" (app +++ ":" +++ p),
      append_assoc "paddle" ":" (app +++ ":" +++ p),
      append_assoc "csv" ":" (app +++ ":" +++ p),
      append_assoc "custom_api" ":" (app +++ ":" +++ p),
    )

-- What stands before the first colon is read back.
before-colon : (s t : String) → NoColon s → before b':' (s +++ ":" +++ t) ≡ s
unfolding before
before-colon String.[] t h = rw nil-append (rw cons-append refl)
before-colon (String.◌∷◌ c s) t h = rw cons-append (ground (arith, before-colon s t h.1))

split_colon :
    (s t s' t' : String)
    → NoColon s
    → NoColon s'
    → s +++ ":" +++ t ≡ s' +++ ":" +++ t'
    → (s ≡ s') × (t ≡ t')
split_colon s t s' t' h h' e =
    let same : s ≡ s' = sym (before-colon s t h) ∙ ap (before b':') e ∙ before-colon s' t' h' in
    (
      same,
      append_cancel_left (":") t t'
          (append_cancel_left s (":" +++ t) (":" +++ t') (rw (← same) at e)),
    )

key_tail_inj :
    (s p p' : String) (b b' : Option String)
    → NoColon p
    → NoColon p'
    → key_tail s p b ≡ key_tail s p' b'
    → (p ≡ p') × (plan_of s b ≡ plan_of s b')
unfolding key_tail
key_tail_inj s p p' b b' h h' e = elim (Bool-cases (str_eq s "google_play")) [
  | inl google ↦
      let (same, plans) = split_colon p _ p' _ h h' (rw google at e) in rw google (same, plans)
  | inr other ↦ rw other (rw other at e, refl)
]

-- Two keys are equal only for the same source type, the same application (a missing one counts
-- as "unknown") and the same product, and at Google Play the same base plan (a missing one counts
-- as empty), provided that none of the source types, applications and products holds a colon.
pub source_product_key_inj :
    (s s' : String) (a a' : Option String) (p p' : String) (b b' : Option String)
    → NoColon s
    → NoColon s'
    → NoColon (unwrap_or a "unknown")
    → NoColon (unwrap_or a' "unknown")
    → NoColon p
    → NoColon p'
    → source_product_key s a p b ≡ source_product_key s' a' p' b'
    → (s ≡ s')
      × (unwrap_or a "unknown" ≡ unwrap_or a' "unknown")
      × (p ≡ p')
      × (plan_of s b ≡ plan_of s' b')
source_product_key_inj s s' a a' p p' b b' hs hs' ha ha' hp hp' e =
    let shaped = sym (source_product_key_lem s a p b) ∙ e ∙ source_product_key_lem s' a' p' b' in
    let (same_source, rest) = split_colon s _ s' _ hs hs' shaped in
    let (same_app, tails) = split_colon _ (key_tail s p b) _ (key_tail s' p' b') ha ha' rest in
    let (same_product, same_plan) = key_tail_inj s p p' b b' hp hp' (rw (← same_source) at tails) in
    (same_source, same_app, same_product, rw (← same_source) same_plan)
