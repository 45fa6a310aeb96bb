-- ===== src/SealedBid/Roles.antt =====
-- src/lib/sealed-envelope-roles.ts: who is buyer and who is seller after a sealed-envelope phase.
use pathos_dacs_ref.Prelude.{
  String, Bool, true, false, not, ◌&&◌, ◌||◌, Option, none, some, ◌≡◌, ◌↔◌, ◌⊎◌, inl, inr, refl, ap,
  str_eq, eq_iff, if◌then◌else◌,
}

pub data Party : Type 0 where
  winning_bidder listing_publisher : Party

pub data AgreementRole : Type 0 where
  buyer seller : AgreementRole

pub data Mode : Type 0 where
  demand procurement : Mode

-- the marker of a listing: `other_value` is a value that is no text
pub data AuctionMode : Type 0 where
  absent other_value : AuctionMode
  text : String → AuctionMode

pub record Agreement : Type 0 where
  pub buyer_party : Party
  pub seller_party : Party

pub record SealedEnvelopeInput : Type 0 where
  pub phase_kind : String
  pub auction_mode : AuctionMode
  pub agreement : Option Agreement

pub data FailedAt : Type 0 where
  at_phase_kind at_auction_mode at_role_direction : FailedAt

-- the pattern is a constant, and the context key is the phase kind
pub record SealedEnvelopeOk : Type 0 where
  pub mode : Mode
  pub winning_bidder_role : AgreementRole
  pub listing_publisher_role : AgreementRole

pub data SealedEnvelopeResult : Type 0 where
  reject : FailedAt → SealedEnvelopeResult
  assigned : SealedEnvelopeOk → SealedEnvelopeResult

abbrev pub demand_phase : String
demand_phase = "negotiate-sealed-envelope"

abbrev pub procurement_phase : String
procurement_phase = "negotiate-sealed-envelope-procurement"

-- `rolesForMode`
abbrev pub roles_for_mode : Mode → SealedEnvelopeOk
roles_for_mode demand = record {
  mode = demand;
  winning_bidder_role = buyer;
  listing_publisher_role = seller;
}
roles_for_mode procurement = record {
  mode = procurement;
  winning_bidder_role = seller;
  listing_publisher_role = buyer;
}

abbrev pub same_party : Party → Party → Bool
same_party winning_bidder winning_bidder = true
same_party listing_publisher listing_publisher = true
same_party _ _ = false

abbrev pub same_role : AgreementRole → AgreementRole → Bool
same_role buyer buyer = true
same_role seller seller = true
same_role _ _ = false

-- the role that an agreement gives a party
abbrev pub role_of : Party → Agreement → Option AgreementRole
role_of p a =
    if same_party a.buyer_party p
    then some buyer
    else if same_party a.seller_party p
    then some seller
    else none

abbrev pub has_role : AgreementRole → Option AgreementRole → Bool
has_role role none = false
has_role role (some given) = same_role given role

-- the gate of the roles that were already agreed
abbrev pub check_agreement : SealedEnvelopeOk → Option Agreement → SealedEnvelopeResult
check_agreement roles none = assigned roles
check_agreement roles (some a) =
    if not (has_role roles.winning_bidder_role (role_of winning_bidder a))
      || not (has_role roles.listing_publisher_role (role_of listing_publisher a))
    then reject at_role_direction
    else assigned roles

abbrev pub demand_mode : AuctionMode → Bool
demand_mode absent = true
demand_mode other_value = false
demand_mode (text s) = str_eq s "demand"

abbrev pub procurement_mode : AuctionMode → Bool
procurement_mode absent = false
procurement_mode other_value = false
procurement_mode (text s) = str_eq s "procurement"

-- `assignSealedEnvelopeRoles`
unfoldable pub assign_sealed_envelope_roles : SealedEnvelopeInput → SealedEnvelopeResult
assign_sealed_envelope_roles i =
    if not (str_eq i.phase_kind demand_phase) && not (str_eq i.phase_kind procurement_phase)
    then reject at_phase_kind
    else if str_eq i.phase_kind demand_phase
    then if demand_mode i.auction_mode
      then check_agreement (roles_for_mode demand) i.agreement
      else reject at_auction_mode
    else if procurement_mode i.auction_mode
    then check_agreement (roles_for_mode procurement) i.agreement
    else reject at_auction_mode

-- the agreement, if there is one, names the two parties as the mode does
abbrev pub Agrees : Mode → Option Agreement → Type 0
Agrees mode none = Unit
Agrees demand (some a) = (a.buyer_party ≡ winning_bidder) × (a.seller_party ≡ listing_publisher)
Agrees procurement (some a) =
    (a.buyer_party ≡ listing_publisher) × (a.seller_party ≡ winning_bidder)

-- what the listing pins
abbrev pub Pinned : Mode → SealedEnvelopeInput → Type 0
Pinned demand i =
    (i.phase_kind ≡ demand_phase) × ((i.auction_mode ≡ absent) ⊎ (i.auction_mode ≡ text "demand"))
Pinned procurement i = (i.phase_kind ≡ procurement_phase) × (i.auction_mode ≡ text "procurement")

Decided : Mode → SealedEnvelopeOk → Option Agreement → Type 0
Decided mode roles o = (roles ≡ roles_for_mode mode) × Agrees mode o

parties-Decided :
    (mode : Mode) (roles : SealedEnvelopeOk) (b s : Party)
    → check_agreement (roles_for_mode mode) (some (record { buyer_party = b; seller_party = s }))
      ≡ assigned roles
    → Decided mode roles (some (record { buyer_party = b; seller_party = s }))
unfolding Decided
parties-Decided demand roles winning_bidder listing_publisher h = (cc, (refl, refl))
parties-Decided demand roles winning_bidder winning_bidder h = absurd cc
parties-Decided demand roles listing_publisher winning_bidder h = absurd cc
parties-Decided demand roles listing_publisher listing_publisher h = absurd cc
parties-Decided procurement roles listing_publisher winning_bidder h = (cc, (refl, refl))
parties-Decided procurement roles listing_publisher listing_publisher h = absurd cc
parties-Decided procurement roles winning_bidder winning_bidder h = absurd cc
parties-Decided procurement roles winning_bidder listing_publisher h = absurd cc

agreement-Decided :
    (mode : Mode) (roles : SealedEnvelopeOk) (o : Option Agreement)
    → check_agreement (roles_for_mode mode) o ≡ assigned roles
    → Decided mode roles o
unfolding Decided
agreement-Decided mode roles none h = (cc, tt)
agreement-Decided mode roles (some a) h = parties-Decided mode roles a.buyer_party a.seller_party h

agreement_assigned :
    (mode : Mode) (o : Option Agreement)
    → Agrees mode o
    → check_agreement (roles_for_mode mode) o ≡ assigned (roles_for_mode mode)
agreement_assigned mode none h = refl
agreement_assigned demand (some a) (b, s) = rw (b, s) refl
agreement_assigned procurement (some a) (b, s) = rw (b, s) refl

demand_mode_iff : (m : AuctionMode) → (demand_mode m ≡ true) ↔ ((m ≡ absent) ⊎ (m ≡ text "demand"))
demand_mode_iff absent = (λ h. inl refl, λ h. refl)
demand_mode_iff other_value = (λ h. absurd cc, λ h. absurd (elim h [ inl e ↦ cc | inr e ↦ cc ]))
demand_mode_iff (text s) = (
  λ h. inr (ap text ((eq_iff s "demand").0 h)),
  λ h. elim h [
    | inl e ↦ absurd cc
    | inr e ↦ (let same : s ≡ "demand" = cc in (eq_iff s "demand").1 same)
  ],
)

procurement_mode_iff : (m : AuctionMode) → (procurement_mode m ≡ true) ↔ (m ≡ text "procurement")
procurement_mode_iff absent = (λ h. absurd cc, λ h. absurd cc)
procurement_mode_iff other_value = (λ h. absurd cc, λ h. absurd cc)
procurement_mode_iff (text s) = (
  λ h. ap text ((eq_iff s "procurement").0 h),
  λ h. let same : s ≡ "procurement" = cc in (eq_iff s "procurement").1 same,
)

-- the answer, by the tests of the phase and of the marker
abbrev routed :
    (is_demand is_procurement demanded procured : Bool) → Option Agreement → SealedEnvelopeResult
routed d p dm pm o =
    if not d && not p
    then reject at_phase_kind
    else if d
    then if dm then check_agreement (roles_for_mode demand) o else reject at_auction_mode
    else if pm
    then check_agreement (roles_for_mode procurement) o
    else reject at_auction_mode

Chosen : Mode → (is_demand is_procurement demanded procured : Bool) → Type 0
Chosen demand d p dm pm = (d ≡ true) × (dm ≡ true)
Chosen procurement d p dm pm = (p ≡ true) × (pm ≡ true)

routed-Chosen :
    (mode : Mode) (d p dm pm : Bool) (o : Option Agreement)
    → routed d p dm pm o ≡ assigned (roles_for_mode mode)
    → Chosen mode d p dm pm × Agrees mode o
unfolding Chosen Decided
routed-Chosen demand true p true pm o h =
    ((refl, refl), (agreement-Decided demand (roles_for_mode demand) o h).1)
routed-Chosen procurement true p true pm o h =
    let same = (agreement-Decided demand (roles_for_mode procurement) o h).0 in
    let modes : procurement ≡ demand = ap (λ r. r.mode) same in absurd cc
routed-Chosen mode true p false pm o h = absurd cc
routed-Chosen mode false false dm pm o h = absurd cc
routed-Chosen mode false true dm false o h = absurd cc
routed-Chosen procurement false true dm true o h =
    ((refl, refl), (agreement-Decided procurement (roles_for_mode procurement) o h).1)
routed-Chosen demand false true dm true o h =
    let same = (agreement-Decided procurement (roles_for_mode demand) o h).0 in
    let modes : demand ≡ procurement = ap (λ r. r.mode) same in absurd cc

Pinned-assigned :
    (mode : Mode) (i : SealedEnvelopeInput)
    → Pinned mode i
    → Agrees mode i.agreement
    → assign_sealed_envelope_roles i ≡ assigned (roles_for_mode mode)
unfolding assign_sealed_envelope_roles
Pinned-assigned demand i (phase, marker) agrees =
    rw (phase, (demand_mode_iff i.auction_mode).1 marker)
      (agreement_assigned demand i.agreement agrees)
Pinned-assigned procurement i (phase, marker) agrees =
    rw (phase, (procurement_mode_iff i.auction_mode).1 marker)
      (agreement_assigned procurement i.agreement agrees)

Chosen-Pinned :
    (mode : Mode) (i : SealedEnvelopeInput)
    → Chosen mode
        (str_eq i.phase_kind demand_phase)
        (str_eq i.phase_kind procurement_phase)
        (demand_mode i.auction_mode)
        (procurement_mode i.auction_mode)
    → Pinned mode i
unfolding Chosen
Chosen-Pinned demand i (d, m) =
    ((eq_iff i.phase_kind demand_phase).0 d, (demand_mode_iff i.auction_mode).0 m)
Chosen-Pinned procurement i (p, m) =
    ((eq_iff i.phase_kind procurement_phase).0 p, (procurement_mode_iff i.auction_mode).0 m)

-- The roles of a mode are assigned exactly where the phase of the listing and its marker pin that
-- mode, and an agreement, if there is one, names the parties as the mode does. A marker that is missing
-- or malformed on a procurement phase is never read as demand.
pub assigned_iff :
    (i : SealedEnvelopeInput) (mode : Mode)
    → (assign_sealed_envelope_roles i ≡ assigned (roles_for_mode mode))
      ↔ (Pinned mode i × Agrees mode i.agreement)
unfolding assign_sealed_envelope_roles
assigned_iff i mode = (
  λ h.
      let (chosen, agrees) =
        routed-Chosen mode (str_eq i.phase_kind demand_phase)
          (str_eq i.phase_kind procurement_phase) (demand_mode i.auction_mode)
          (procurement_mode i.auction_mode) i.agreement h in
      (Chosen-Pinned mode i chosen, agrees),
  λ h. Pinned-assigned mode i h.0 h.1,
)
