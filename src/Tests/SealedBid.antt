-- ===== src/Tests/SealedBid.antt =====
-- src/lib/sealed-bid.ts at concrete inputs.
use pathos_dacs_ref.Prelude.{
  ◌↔◌, suc, ◌<◌, subst, Bool, true, Option, none, some, [], ◌∷◌, ◌++◌, codes, All, ◌≡◌, ◌⊎◌, refl,
  arith,
}
use pathos_dacs_ref.Crypto.Hex.{Bytes, bytes_to_hex, hex_char}
use pathos_dacs_ref.SealedBid.{
  SealedBid, SealedBidCommitment, commitment, raw, hex, build_commitment_preimage,
  commit_sealed_bid, verify_reveal,
}
use pathos_dacs_ref.SealedBid.Binding.{verify_reveal-commit, verify_reveal-Same, Same, Collision}
use pathos_dacs_ref.SealedBid.Roles.{
  SealedEnvelopeInput, winning_bidder, listing_publisher, procurement, absent, text, reject,
  assigned, at_role_direction, at_auction_mode, roles_for_mode, assign_sealed_envelope_roles,
  Agrees, Pinned, assigned_iff,
}
use pathos_dacs_ref.Tests.Primitives.{digest, digest-Is32}
use pathos_dacs_ref.Tests.Disclose.{salt}

abbrev bid : SealedBid Bool
bid = record {
  price = record { amount = codes "10"; currency = codes "DEM"; substrate = none };
  deliverable = none;
  terms = none;
}

-- a canonical form without a zero byte
abbrev shifted : Bytes → Bytes
shifted [] = []
shifted (b ∷ bs) = suc b ∷ shifted bs

shifted_no_zero : (b : Bytes) → All (λ x. 0 < x) (shifted b)
shifted_no_zero [] = tt
shifted_no_zero (b ∷ bs) = (omega arith, shifted_no_zero bs)

abbrev jcs : SealedBid Bool → Option Bytes
jcs b = some (shifted b.price.amount)

jcs_no_zero : (b : SealedBid Bool) (bytes : Bytes) → jcs b ≡ some bytes → All (λ x. 0 < x) bytes
jcs_no_zero b bytes e =
    let same : shifted b.price.amount ≡ bytes = cc in
    subst (λ x. All (λ y. 0 < y) x) same (shifted_no_zero b.price.amount)

abbrev made : SealedBidCommitment
made = record {
  bid_hash = bytes_to_hex (digest (shifted (codes "10") ++ 0 ∷ salt));
  salt_hex = bytes_to_hex salt;
}

commits : commit_sealed_bid digest (λ s. s) jcs bid salt ≡ some made
unfolding commit_sealed_bid build_commitment_preimage bytes_to_hex hex_char
commits = refl

verify_reveal-commit_example :
    (verify_reveal digest (λ s. s) jcs (commitment made) bid (raw salt) ≡ true)
    × (verify_reveal digest (λ s. s) jcs (commitment made) bid (hex made.salt_hex) ≡ true)
verify_reveal-commit_example =
    verify_reveal-commit digest (λ s. s) jcs (λ b. (digest-Is32 b).1) (λ b h. refl) bid salt made
      (ground arith) commits

verify_reveal-Same_example :
    Same digest (λ s. s) jcs (λ b. (digest-Is32 b).1) (λ b h. refl) bid salt bid (raw salt)
    ⊎ Collision digest (λ s. s) jcs (λ b. (digest-Is32 b).1) (λ b h. refl)
verify_reveal-Same_example =
    verify_reveal-Same digest (λ s. s) jcs (λ b. (digest-Is32 b).1) (λ b h. refl) jcs_no_zero bid
      bid salt (raw salt) made commits verify_reveal-commit_example.0

abbrev pinned : SealedEnvelopeInput
pinned = record {
  phase_kind = "negotiate-sealed-envelope-procurement";
  auction_mode = text "procurement";
  agreement = some (record { buyer_party = listing_publisher; seller_party = winning_bidder });
}

assigned_iff_example :
    (assign_sealed_envelope_roles pinned ≡ assigned (roles_for_mode procurement)) ↔ (
      Pinned procurement pinned
      × Agrees procurement
          (some (record { buyer_party = listing_publisher; seller_party = winning_bidder })))
assigned_iff_example = assigned_iff pinned procurement

-- roles that are the wrong way round, and a procurement phase without its marker
refused :
    (assign_sealed_envelope_roles (record {
      phase_kind = "negotiate-sealed-envelope";
      auction_mode = absent;
      agreement = pinned.agreement;
    })
      ≡ reject at_role_direction)
    × (assign_sealed_envelope_roles (record {
      phase_kind = "negotiate-sealed-envelope-procurement";
      auction_mode = absent;
      agreement = none;
    })
        ≡ reject at_auction_mode)
unfolding assign_sealed_envelope_roles
refused = (refl, refl)
