-- ===== src/Vet/Availability.antt =====
-- src/lib/recipe-availability.ts: whether a recipe may run at all.
use pathos_dacs_ref.Prelude.{
  String, Bool, true, false, not, Option, none, some, ◌≡◌, refl, ◌⊎◌, ◌↔◌, inl, arith, str_eq,
  eq_iff, if◌then◌else◌,
}

pub data RecipeAvailability : Type 0 where
  available mocked degraded disabled failed : RecipeAvailability

-- `proceed`, and `effectiveAvailability`; `decision` is 'error' exactly if `proceed` is false
pub record PreflightResult : Type 0 where
  pub proceed : Bool
  pub effective : RecipeAvailability

-- the value of a known text
known : String → Option RecipeAvailability
known s =
    if str_eq s "available"
    then some available
    else if str_eq s "mocked"
    then some mocked
    else if str_eq s "degraded"
    then some degraded
    else if str_eq s "disabled"
    then some disabled
    else if str_eq s "failed"
    then some failed
    else none

abbrev blocking : RecipeAvailability → Bool
blocking disabled = true
blocking failed = true
blocking _ = false

abbrev preflight_known : Option RecipeAvailability → PreflightResult
preflight_known none = record { proceed = false; effective = disabled }
preflight_known (some a) = record { proceed = not (blocking a); effective = a }

pub preflight_recipe : Option String → PreflightResult
unfolding known
preflight_recipe none = record { proceed = true; effective = mocked }
preflight_recipe (some raw) = preflight_known (known raw)

-- A recipe runs exactly when its availability is missing or one of the three runnable values; a
-- missing one counts as mocked, and every other text is refused.
pub proceeds_iff :
    (raw : Option String)
    → ((preflight_recipe raw).proceed ≡ true) ↔ (
        (raw ≡ none)
        ⊎ ((raw ≡ some "available") ⊎ ((raw ≡ some "mocked") ⊎ (raw ≡ some "degraded"))))
unfolding preflight_recipe
proceeds_iff none = (λ _. inl refl, λ _. refl)
proceeds_iff (some s) = (
  λ h. ground (
    arith,
    h,
    eq_iff s "available",
    eq_iff s "mocked",
    eq_iff s "degraded",
    eq_iff s "disabled",
    eq_iff s "failed",
  ),
  λ h. ground (
    arith,
    h,
    eq_iff s "available",
    eq_iff s "mocked",
    eq_iff s "degraded",
    eq_iff s "disabled",
    eq_iff s "failed",
  ),
)
