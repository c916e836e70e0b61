-- ===== src/Frontend/Wallet/Session.antt =====
-- The control state of a wallet session (frontend/lib/auth/wallet-identity.ts) under any events.
use leopold.Prelude.{
  ℕ, ◌≡◌, refl, sym, Bool, true, false, not, ◌||◌, Option, none, some, List, [], ◌∷◌, arith,
  if◌then◌else◌,
}
use leopold.Prelude.Eq.{nat_eq}
use leopold.Prelude.Text.{Text}
use leopold.Frontend.Recovery.{
  WalletSessionState, bootstrapping, disconnected, connecting, wrong_network, connected,
  WalletSessionReason, account_selection_required, connect_cancelled,
}
use leopold.Frontend.Wallet.{
  WalletSessionIntent, inactive, intent_connecting, active, WalletSessionControl,
  WalletSessionEvent, sdk_ready, restore_started, connect_started, phase_reached,
  provider_connected, found_wrong_network, invalidate, connect_failed,
  initial_wallet_session_control, is_attempt, is_current_attempt, is_bootstrapping, is_connecting,
  start_connecting, activate, deactivate, failed_status, wallet_session_reducer, dispatch,
}

-- Which statuses go with an intent, and what is recorded of the attempt.
abbrev pub Matches : WalletSessionIntent → WalletSessionState → Type 0
Matches inactive connecting = ⊥
Matches inactive connected = ⊥
Matches inactive wrong_network = ⊥
Matches inactive status = Unit {0}
Matches intent_connecting connecting = Unit {0}
Matches intent_connecting status = ⊥
Matches active connected = Unit {0}
Matches active wrong_network = Unit {0}
Matches active status = ⊥

abbrev pub is_some : {A : Type 0} → Option A → Bool
is_some none = false
is_some (some a) = true

pub record IsCoherent (state : WalletSessionControl) : Type 0 where
  pub matches : Matches state.intent state.status
  pub has_attempt : is_some state.connect_attempt_id ≡ is_connecting state.intent
  pub has_start : is_some state.connect_started_at ≡ is_connecting state.intent
  pub has_origin : is_some state.connect_origin ≡ is_connecting state.intent
  pub has_phase : is_some state.connect_phase ≡ is_connecting state.intent

if-IsCoherent :
    (b : Bool) {x y : WalletSessionControl}
    → (b ≡ true → IsCoherent x)
    → (b ≡ false → IsCoherent y)
    → IsCoherent (if b then x else y)
if-IsCoherent true f g = f refl
if-IsCoherent false f g = g refl

bootstrapped :
    (intent : WalletSessionIntent) (status : WalletSessionState)
    → is_bootstrapping status ≡ true
    → Matches intent status
    → Matches intent disconnected
unfolding is_bootstrapping
bootstrapped inactive bootstrapping h m = tt
bootstrapped intent_connecting bootstrapping h m = absurd m
bootstrapped active bootstrapping h m = absurd m
bootstrapped intent status h m = absurd (ground arith)

phase-Matches :
    (intent : WalletSessionIntent) → is_connecting intent ≡ true → Matches intent connecting
unfolding is_connecting
phase-Matches inactive h = absurd (ground arith)
phase-Matches intent_connecting h = tt
phase-Matches active h = absurd (ground arith)

failed-Matches : (reason : WalletSessionReason) → Matches inactive (failed_status reason)
unfolding failed_status
failed-Matches account_selection_required = tt
failed-Matches connect_cancelled = tt
failed-Matches reason = tt

wallet_session_reducer-IsCoherent :
    (state : WalletSessionControl) (event : WalletSessionEvent)
    → IsCoherent state
    → IsCoherent (wallet_session_reducer state event)
unfolding wallet_session_reducer start_connecting activate deactivate is_connecting
wallet_session_reducer-IsCoherent state (sdk_ready reason) c =
    if-IsCoherent (is_bootstrapping state.status)
      (λ h. record {
        matches = bootstrapped state.intent state.status h c.matches;
        has_attempt = c.has_attempt;
        has_start = c.has_start;
        has_origin = c.has_origin;
        has_phase = c.has_phase;
      })
      (λ h. c)
wallet_session_reducer-IsCoherent state (restore_started id started_at epoch) c = record {
  matches = tt;
  has_attempt = refl;
  has_start = refl;
  has_origin = refl;
  has_phase = refl;
}
wallet_session_reducer-IsCoherent state (connect_started id started_at epoch) c = record {
  matches = tt;
  has_attempt = refl;
  has_start = refl;
  has_origin = refl;
  has_phase = refl;
}
wallet_session_reducer-IsCoherent state (phase_reached id phase reason) c =
    if-IsCoherent (not (is_attempt state.connect_attempt_id id) || not (is_connecting state.intent))
      (λ h. c)
      (λ h.
        let connects : is_connecting state.intent ≡ true = ground arith in
        record {
          matches = phase-Matches state.intent connects;
          has_attempt = c.has_attempt;
          has_start = c.has_start;
          has_origin = c.has_origin;
          has_phase = sym connects;
        })
wallet_session_reducer-IsCoherent state (provider_connected id revision epoch) c =
    if-IsCoherent (not (is_current_attempt state id)) (λ h. c)
      (λ h. record {
        matches = tt;
        has_attempt = refl;
        has_start = refl;
        has_origin = refl;
        has_phase = refl;
      })
wallet_session_reducer-IsCoherent state (found_wrong_network id revision epoch) c =
    if-IsCoherent (not (is_current_attempt state id)) (λ h. c)
      (λ h. record {
        matches = tt;
        has_attempt = refl;
        has_start = refl;
        has_origin = refl;
        has_phase = refl;
      })
wallet_session_reducer-IsCoherent state (invalidate reason epoch) c = record {
  matches = tt;
  has_attempt = refl;
  has_start = refl;
  has_origin = refl;
  has_phase = refl;
}
wallet_session_reducer-IsCoherent state (connect_failed reason id epoch) c =
    if-IsCoherent (not (is_attempt state.connect_attempt_id id)) (λ h. c)
      (λ h. record {
        matches = failed-Matches reason;
        has_attempt = refl;
        has_start = refl;
        has_origin = refl;
        has_phase = refl;
      })

keeps-IsCoherent :
    (state : WalletSessionControl) (events : List WalletSessionEvent)
    → IsCoherent state
    → IsCoherent (dispatch state events)
unfolding dispatch
keeps-IsCoherent state [] c = c
keeps-IsCoherent state (event ∷ events) c =
    keeps-IsCoherent (wallet_session_reducer state event) events
      (wallet_session_reducer-IsCoherent state event c)

-- After any events, the status goes with the intent (connecting exactly while the intent is, and
-- connected or on a wrong network exactly while the session is active), and an attempt, its start,
-- its origin and its phase are recorded exactly while the intent is to connect.
pub dispatch-IsCoherent :
    (events : List WalletSessionEvent) → IsCoherent (dispatch initial_wallet_session_control events)
unfolding is_connecting
dispatch-IsCoherent events = keeps-IsCoherent initial_wallet_session_control events (record {
  matches = tt;
  has_attempt = refl;
  has_start = refl;
  has_origin = refl;
  has_phase = refl;
})

-- The events that do not start a session: the results of an attempt, and the ends of a session.
abbrev pub IsLate : WalletSessionEvent → Type 0
IsLate (restore_started id started_at epoch) = ⊥
IsLate (connect_started id started_at epoch) = ⊥
IsLate (provider_connected none revision epoch) = ⊥
IsLate (found_wrong_network none revision epoch) = ⊥
IsLate event = Unit {0}

abbrev pub AllLate : List WalletSessionEvent → Type 0
AllLate [] = Unit {0}
AllLate (event ∷ events) = IsLate event × AllLate events

no_attempt :
    (attempt : Option Text) (id : Text) (intent : WalletSessionIntent)
    → is_some attempt ≡ is_connecting intent
    → intent ≡ inactive
    → is_attempt attempt id ≡ false
unfolding is_attempt is_connecting
no_attempt none id intent h i = refl
no_attempt (some a) id inactive h i = absurd (ground arith)
no_attempt (some a) id intent_connecting h i = absurd (ground arith)
no_attempt (some a) id active h i = absurd (ground arith)

late_event :
    (state : WalletSessionControl) (event : WalletSessionEvent)
    → IsCoherent state
    → IsLate event
    → state.intent ≡ inactive
    → (wallet_session_reducer state event).intent ≡ inactive
unfolding wallet_session_reducer deactivate is_current_attempt
late_event state (sdk_ready reason) c l i = ground arith
late_event state (restore_started id started_at epoch) c l i = absurd l
late_event state (connect_started id started_at epoch) c l i = absurd l
late_event state (phase_reached id phase reason) c l i = ground arith
late_event state (provider_connected none revision epoch) c l i = absurd l
late_event state (provider_connected (some id) revision epoch) c l i =
    let n = no_attempt state.connect_attempt_id id state.intent c.has_attempt i in ground arith
late_event state (found_wrong_network none revision epoch) c l i = absurd l
late_event state (found_wrong_network (some id) revision epoch) c l i =
    let n = no_attempt state.connect_attempt_id id state.intent c.has_attempt i in ground arith
late_event state (invalidate reason epoch) c l i = refl
late_event state (connect_failed reason id epoch) c l i = ground arith

late_events :
    (state : WalletSessionControl) (events : List WalletSessionEvent)
    → IsCoherent state
    → AllLate events
    → state.intent ≡ inactive
    → (dispatch state events).intent ≡ inactive
unfolding dispatch
late_events state [] c l i = i
late_events state (event ∷ events) c l i =
    late_events (wallet_session_reducer state event) events
      (wallet_session_reducer-IsCoherent state event c) l.1 (late_event state event c l.0 i)

-- A session that has been invalidated stays inactive, whatever results of earlier attempts arrive
-- late and in whatever order, as long as no connecting or restoring is started and no result comes
-- that names no attempt.
pub invalidated_stays_inactive :
    (before after : List WalletSessionEvent) (reason : WalletSessionReason) (epoch : ℕ)
    → AllLate after
    → (dispatch
        (wallet_session_reducer
          (dispatch initial_wallet_session_control before)
          (invalidate reason epoch))
        after).intent
      ≡ inactive
unfolding wallet_session_reducer deactivate
invalidated_stays_inactive before after reason epoch l =
    late_events _ after
      (wallet_session_reducer-IsCoherent (dispatch initial_wallet_session_control before)
        (invalidate reason epoch) (dispatch-IsCoherent before))
      l refl
