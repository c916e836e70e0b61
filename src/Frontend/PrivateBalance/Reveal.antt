-- ===== src/Frontend/PrivateBalance/Reveal.antt =====
-- What a revealed balance (frontend/lib/leopold/private-balance.ts) is the balance of.
use leopold.Prelude.{◌≡◌, refl, ◌⊎◌, inl, inr, true, false, Option}
use leopold.Prelude.Int.{ℤ, pos}
use leopold.Prelude.Eq.{nat_eq}
use leopold.Prelude.Results.{ok}
use leopold.Prelude.Calls.{
  Calls, done, checked, ◌>>=◌, ◌>>◌, Gives, bind-Gives, done-Gives, if-Gives,
}
use leopold.Prelude.Text.{Text}
use leopold.Frontend.PrivateBalance.{
  RevealStage, reading_handle, awaiting_decrypt_authorization, decrypting, revalidating_handle,
  revealed, stale_handle, RevealError, PrivateBalanceIdentity, PrivateBalanceClients, Revealed,
  is_zero_balance_handle, same_private_balance_identity, throw_unless,
  read_current_private_balance_handle, stage, announce, revalidate, reveal_identity,
  reveal_private_balance_from_current_handle,
}
use leopold.Frontend.PrivateBalance.Reads.{
  throw_unless_ok, checked_then, IsRead, handle-IsRead, IsDecrypted, decrypt-IsDecrypted,
}

module _ {World : Type 0} (configured : Option Text) where
  module _ (get_current_clients : World → PrivateBalanceClients World)
      (on_stage : RevealStage → World → World)
      (on_identity : PrivateBalanceIdentity → World → World) (c : PrivateBalanceClients World)
      (token : Text) where
    -- How a value comes about from the world after the first read to the world before the second:
    -- zero for the zero handle, with nothing in between, and else the decryption of the handle.
    abbrev pub IsValue : PrivateBalanceIdentity → World → ℤ → World → Type 0
    IsValue requested start value end =
        ((is_zero_balance_handle requested.handle ≡ true) × (value ≡ pos 0) × (end ≡ start))
        ⊎ ((is_zero_balance_handle requested.handle ≡ false)
            × ((v : World) × IsDecrypted configured c requested
                  (on_stage decrypting (on_stage awaiting_decrypt_authorization start)) value v
                × (end ≡ on_stage revalidating_handle v)))

    -- How a revealed balance comes about, world after world: the clients given read the identity
    -- that is asked for, its value comes about, and only then the clients of that moment read the
    -- identity again, which is the one that is revealed.
    pub record IsBound (w : World) (r : Revealed) (w' : World) : Type 0 where
      pub requested : PrivateBalanceIdentity
      pub after_request : World
      pub was_requested :
          IsRead configured c token (on_stage reading_handle w) requested after_request
      pub before_revalidation : World
      pub has_value :
          IsValue requested (on_identity requested after_request) r.value before_revalidation
      pub after_read : World
      pub is_current :
          IsRead configured
            (get_current_clients before_revalidation)
            token
            before_revalidation
            r.identity
            after_read
      pub same_identity : same_private_balance_identity requested r.identity ≡ true
      pub ends : w' ≡ on_stage revealed after_read

    stage_then :
        {B : Type 0} {P : B → World → Type 0} {k : Calls RevealError World B} (s : RevealStage)
        (w : World)
        → Gives P (on_stage s w) k
        → Gives P w (stage configured get_current_clients on_stage on_identity s >> k)
    unfolding ◌>>=◌ stage
    stage_then s w g = record { holds = g.holds }

    announce_then :
        {B : Type 0} {P : B → World → Type 0} {k : Calls RevealError World B}
        (i : PrivateBalanceIdentity) (w : World)
        → Gives P (on_identity i w) k
        → Gives P w (announce configured get_current_clients on_stage on_identity i >> k)
    unfolding ◌>>=◌ announce
    announce_then i w g = record { holds = g.holds }

    module _ (w : World) (requested : PrivateBalanceIdentity) (after_request : World)
        (read : IsRead configured c token (on_stage reading_handle w) requested after_request) where
      revalidate-IsBound :
          (value : ℤ) (v : World)
          → IsValue requested (on_identity requested after_request) value v
          → Gives
              (IsBound w)
              v
              (revalidate configured get_current_clients on_stage on_identity token requested value)
      unfolding revalidate
      revalidate-IsBound value v h = record { holds = again.holds }
        where
          again : Gives (IsBound w) v (
              (read_current_private_balance_handle configured (get_current_clients v) token)
              >>= λ current.
                  checked
                    (throw_unless (same_private_balance_identity requested current) stale_handle)
                  >> (stage configured get_current_clients on_stage on_identity revealed
                      >> done (record { identity = current; value = value })))
          again =
              bind-Gives (handle-IsRead configured (get_current_clients v) token v)
                (λ current v' is_read. checked_then v' _ (λ u same. stage_then revealed v' (
                  done-Gives (on_stage revealed v') _ (record {
                    requested = requested;
                    after_request = after_request;
                    was_requested = read;
                    before_revalidation = v;
                    has_value = h;
                    after_read = v';
                    is_current = is_read;
                    same_identity = throw_unless_ok _ _ same;
                    ends = refl;
                  }))))

      reveal_identity-IsBound :
          Gives
            (IsBound w)
            (on_identity requested after_request)
            (reveal_identity configured get_current_clients on_stage on_identity c token requested)
      unfolding reveal_identity
      reveal_identity-IsBound =
          let start = on_identity requested after_request in
          if-Gives (is_zero_balance_handle requested.handle)
            (λ z. revalidate-IsBound (pos 0) start (inl (z, refl, refl)))
            (λ z. stage_then _ start (
              stage_then _ _ (
                bind-Gives (decrypt-IsDecrypted configured c requested _) (λ value v d.
                  stage_then _ v (
                    revalidate-IsBound value (on_stage revalidating_handle v)
                      (inr (z, (v, d, refl))))))))

    -- A balance that is revealed is bound to the token of the deployment, on Sepolia, for the
    -- account that signs, both times and by both clients' chains. The calls are in this order, each in the world that the one before left:
    -- the clients given read the identity; its value is zero for the zero handle, and else the
    -- decryption of that identity's handle for its account; after that the clients of that moment
    -- read the identity again, it is the same, and it is the one that is revealed.
    pub reveal_private_balance-IsBound :
        (w : World) (r : Revealed)
        → (reveal_private_balance_from_current_handle configured get_current_clients on_stage
            on_identity c token w).0
          ≡ ok r
        → IsBound w r
            (reveal_private_balance_from_current_handle configured get_current_clients on_stage
              on_identity c token w).1
    unfolding reveal_private_balance_from_current_handle
    reveal_private_balance-IsBound w r h = whole.holds r h
      where
        whole : Gives (IsBound w) w (
            reveal_private_balance_from_current_handle configured get_current_clients on_stage
              on_identity c token)
        whole = stage_then reading_handle w (
            bind-Gives (handle-IsRead configured c token _) (λ requested v read.
              announce_then requested v (reveal_identity-IsBound w requested v read)))
