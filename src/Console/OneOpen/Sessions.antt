-- ===== src/Console/OneOpen/Sessions.antt =====
-- packages/mock/src/admin/store.ts: the calls on support sessions leave at most the newest one open.
use twenty_four.Prelude.{String, refl, inl, inr, not, Bool-cases, exists}
use twenty_four.Prelude.Equality.{eq_ℕ, eq_String}
use twenty_four.Prelude.Results.{throw_if-eq-ok}
use twenty_four.Prelude.Stateful.{Leaves, leaves, next, past, when}
use twenty_four.Console.Data.{AdminStore, Host, StartSupportSessionInput}
use twenty_four.Console.Doors.{is_open, close_session}
use twenty_four.Console.Support.{start_session, elevate_session, extend_session, revoke_session}
use twenty_four.Console.OneOpen.Ended.{desk, GuardedStore, replaced-Guarded, open_first}

pub close_session-Guarded :
    (host : Host) (id why : String) (s : AdminStore)
    → GuardedStore s
    → Leaves GuardedStore (close_session host id why s)
unfolding close_session when
close_session-Guarded host id why s h = next _ h (λ session _. elim (Bool-cases (is_open session)) [
  | inl opened ↦ rw opened (past _ _ _ (leaves (replaced-Guarded _ _ (λ e _. refl) (desk s) h)))
  | inr ended ↦ rw ended (leaves h)
])

pub start_session-Guarded :
    (host : Host) (input : StartSupportSessionInput) (s : AdminStore)
    → GuardedStore s
    → Leaves GuardedStore (start_session host input s)
unfolding start_session
start_session-Guarded host input s h = next _ h (λ _ inside. next _ h (λ _ _. next _ h (λ _ _.
    next _ h (λ _ closed. next _ h (λ _ _. next _ h (λ session _. past _ _ _ (
      past _ _ _ (
        leaves (
          open_first session (desk s) (throw_if-eq-ok (not s.signed_in) _ inside)
            (throw_if-eq-ok (exists is_open s.sessions) _ closed))))))))))

pub elevate_session-Guarded :
    (host : Host) (id reason : String) (s : AdminStore)
    → GuardedStore s
    → Leaves GuardedStore (elevate_session host id reason s)
unfolding elevate_session
elevate_session-Guarded host id reason s h =
    let h1 = replaced-Guarded _ _ (λ e ended. ended) (desk s) h in
    next _ h (λ _ _. next _ h (λ _ _. next _ h (λ _ _. next _ h (λ _ _.
      next _ h (λ _ _. next _ h (λ _ _. past _ _ _ (next _ h1 (λ _ _. past _ _ _ (leaves h1)))))))))

pub extend_session-Guarded :
    (host : Host) (id : String) (s : AdminStore)
    → GuardedStore s
    → Leaves GuardedStore (extend_session host id s)
unfolding extend_session
extend_session-Guarded host id s h =
    let h1 = replaced-Guarded _ _ (λ e ended. ended) (desk s) h in
    next _ h (λ _ _.
      next _ h (λ _ _. next _ h (λ _ _. past _ _ _ (next _ h1 (λ _ _. past _ _ _ (leaves h1))))))

pub revoke_session-Guarded :
    (host : Host) (id : String) (s : AdminStore)
    → GuardedStore s
    → Leaves GuardedStore (revoke_session host id s)
unfolding revoke_session
revoke_session-Guarded host id s h = next _ h (λ _ _. close_session-Guarded host id _ s h)
