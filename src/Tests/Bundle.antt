-- ===== src/Tests/Bundle.antt =====
-- The consistency verdict at concrete copies.
use pathos_dacs_ref.Prelude.{none, some, [], ◌∷◌, ◌≡◌, ◌↔◌, refl}
use pathos_dacs_ref.Bundle.Value.{text, undefined}
use pathos_dacs_ref.Bundle.Consistency.{
  Copy, BundleRole, seller, SignatureSetClass, structural_signature_class, bundle_consistency_v1,
  canonical_divergence_v1, unified,
}
use pathos_dacs_ref.Bundle.Consistency.Agreement.{Consistent, canonical_divergence_iff}
use pathos_dacs_ref.Bundle.Consistency.Classification.{Unified, unified_iff}
use pathos_dacs_ref.Bundle.Consistency.Suppression.{Suppressed, suppression_backed}

abbrev aborted : Copy
aborted = record {
  outcome = text "aborted-by-other";
  signatures = some 1;
  phase_summary = some (record { index = 0; outcome = text "ok"; error_class = undefined }) ∷ [];
}

abbrev settled : Copy
settled = record aborted { outcome = text "settled"; signatures = some 2 }

abbrev structural : Copy → BundleRole → SignatureSetClass
structural copy role = structural_signature_class copy

canonical_divergence_iff_example :
    canonical_divergence_v1 settled aborted ≡ none ↔ Consistent settled aborted
canonical_divergence_iff_example = canonical_divergence_iff settled aborted

unified_iff_example :
    (bundle_consistency_v1 structural (some settled) (some settled)).0 ≡ unified
    ↔ Unified structural (some settled) (some settled)
unified_iff_example = unified_iff structural (some settled) (some settled)

suppression_backed_example : Suppressed structural seller none (some aborted)
unfolding bundle_consistency_v1 structural_signature_class
suppression_backed_example = suppression_backed structural none (some aborted) seller refl
