-- ===== src/Payment/Settle/Laws.antt =====
-- What a settlement guarantees about the calls it makes and the outcome it reports.
use pathos_dacs_ref.Prelude.{
  ℕ, suc, String, Option, none, some, List, [], ◌∷◌, ◌++◌, ◌≡◌, refl, ◌⊎◌, ◌≢◌, inl, inr, Result,
  ok, throw, arith,
}
use pathos_dacs_ref.Platform.{Platform}
use pathos_dacs_ref.Payment.Policy.{PolicyError, utc_date_or_throw}
use pathos_dacs_ref.Payment.Settle.{
  CoreParams, Client, World, Captured, Recovery, Effect, authorized, journaled, transferred,
  Authorization, proceed, block, malformed, rejected, TransferReply, Hook, absent, works, fails,
  SettleError, after_time, with_inputs, url_of, require_captured_inputs, settle_pay_dem_core,
  after_authorization, journal_then_send, authorize_then_send, after_transfer,
}

-- the transfers among the calls
abbrev pub sent : List Effect → ℕ
sent [] = 0
sent (transferred amount now recovery ∷ es) = suc (sent es)
sent (_ ∷ es) = sent es

abbrev pub journal_calls : Hook → Recovery → List Effect
journal_calls absent recovery = []
journal_calls _ recovery = journaled recovery ∷ []

sent-after_transfer :
    (captured : Captured) (world : World) (r : TransferReply)
    → sent (after_transfer captured world r).1 ≡ 0
unfolding after_transfer
sent-after_transfer captured world r = ground arith

module _ (platform : Platform) (params : CoreParams) (client : Client) (world : World) where
  -- The calls of a run that sends: authorization, journal, transfer, and no second transfer.
  abbrev pub Sends : List Effect → Type 0
  Sends calls =
      (captured : Captured) × (now : String) × (day : String) × (rest : List Effect)
      × (require_captured_inputs platform params client ≡ ok captured)
      × (world.authorize ≡ some (proceed now))
      × (utc_date_or_throw platform now ≡ ok day)
      × (world.journal ≢ fails)
      × (calls
          ≡ authorized captured.recovery.amount_os (url_of params client)
            ∷ (journal_calls world.journal captured.recovery
                ++ transferred captured.recovery.amount_os now captured.recovery ∷ rest))
      × (sent rest ≡ 0)

  journal_sent :
      (captured : Captured) (now day : String) (h : Hook)
      → require_captured_inputs platform params client ≡ ok captured
      → world.authorize ≡ some (proceed now)
      → utc_date_or_throw platform now ≡ ok day
      → world.journal ≡ h
      → let calls =
          authorized captured.recovery.amount_os (url_of params client)
          ∷ (journal_then_send captured world now h).1 in
        (sent calls ≡ 0) ⊎ Sends calls
  unfolding journal_then_send
  journal_sent captured now day absent e a d j = inr (
    captured,
    now,
    day,
    (after_transfer captured world world.transfer).1,
    e,
    a,
    d,
    ground arith,
    ground arith,
    sent-after_transfer captured world world.transfer,
  )
  journal_sent captured now day works e a d j = inr (
    captured,
    now,
    day,
    (after_transfer captured world world.transfer).1,
    e,
    a,
    d,
    ground arith,
    ground arith,
    sent-after_transfer captured world world.transfer,
  )
  journal_sent captured now day fails e a d j = inl refl

  time_sent :
      (captured : Captured) (now : String) (r : Result PolicyError String)
      → require_captured_inputs platform params client ≡ ok captured
      → world.authorize ≡ some (proceed now)
      → utc_date_or_throw platform now ≡ r
      → let calls =
          authorized captured.recovery.amount_os (url_of params client)
          ∷ (after_time captured world now r).1 in
        (sent calls ≡ 0) ⊎ Sends calls
  unfolding after_time
  time_sent captured now (throw _) e h d = inl refl
  time_sent captured now (ok day) e h d = journal_sent captured now day world.journal e h d refl

  authorization_sent :
      (captured : Captured) (a : Authorization)
      → require_captured_inputs platform params client ≡ ok captured
      → world.authorize ≡ some a
      → let calls =
          authorized captured.recovery.amount_os (url_of params client)
          ∷ (after_authorization platform captured world a).1 in
        (sent calls ≡ 0) ⊎ Sends calls
  unfolding after_authorization
  authorization_sent captured rejected e h = inl refl
  authorization_sent captured malformed e h = inl refl
  authorization_sent captured (block reason rule) e h = inl (ground arith)
  authorization_sent captured (proceed now) e h =
      time_sent captured now (utc_date_or_throw platform now) e h refl

  option_sent :
      (captured : Captured) (o : Option Authorization)
      → require_captured_inputs platform params client ≡ ok captured
      → world.authorize ≡ o
      → let calls = (authorize_then_send platform params client world captured o).1 in
        (sent calls ≡ 0) ⊎ Sends calls
  unfolding authorize_then_send
  option_sent captured none e h = inl refl
  option_sent captured (some a) e h = authorization_sent captured a e h

  inputs_sent :
      (r : Result SettleError Captured)
      → require_captured_inputs platform params client ≡ r
      → let calls = (with_inputs platform params client world r).1 in (sent calls ≡ 0) ⊎ Sends calls
  unfolding with_inputs
  inputs_sent (throw _) e = inl refl
  inputs_sent (ok captured) e = option_sent captured world.authorize e refl

  -- Every run either sends no transfer, or sends exactly one, after its inputs were accepted, the
  -- policy said to proceed at a valid time and the recovery intent was journaled (where there is a
  -- journal): its calls are the authorization of the amount, the journal, and the transfer of that
  -- amount, in this order, and no transfer after these.
  pub transfer_preceded :
      let calls = (settle_pay_dem_core platform params client world).1 in
      (sent calls ≡ 0) ⊎ Sends calls
  unfolding settle_pay_dem_core
  transfer_preceded = inputs_sent (require_captured_inputs platform params client) refl
