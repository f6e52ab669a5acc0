-- ===== src/Console/Trail/Sessions.antt =====
-- packages/mock/src/admin/store.ts: the trail of signing in and out and of support sessions.
use twenty_four.Prelude.{String, refl, inl, inr, Option, List, [], ◌∷◌, arith, Bool-cases}
use twenty_four.Prelude.Equality.{eq_ℕ, eq_String}
use twenty_four.Prelude.Stateful.{Leaves, leaves, next, past, then_leaves, when}
use twenty_four.Console.Data.{AdminStore, SupportSession, Host, StartSupportSessionInput}
use twenty_four.Console.Doors.{
  is_open, close_session, close_all, sign_out, sign_in, redeem_handoff, issue_handoff,
}
use twenty_four.Console.Support.{start_session, elevate_session, extend_session, revoke_session}
use twenty_four.Console.Trail.Events.{
  Traced, Noted, Noted-next, nothing-Noted, event-Noted, Noted-Traced, silent-Traced,
  nothing-Traced,
}

close_session-Noted :
    (host : Host) (id why : String) (s : AdminStore)
    → Leaves (Noted s) (close_session host id why s)
unfolding close_session when
close_session-Noted host id why s = next _ (nothing-Noted s) (λ session _.
    elim (Bool-cases (is_open session)) [
      | inl opened ↦ rw opened (past _ _ _ (leaves (event-Noted s _ _ refl refl (refl, refl) refl)))
      | inr ended ↦ rw ended (leaves (nothing-Noted s))
    ])

close_all-Noted :
    (host : Host) (es : List SupportSession) (s : AdminStore)
    → Leaves (Noted s) (close_all host es s)
unfolding close_all
close_all-Noted host [] s = leaves (nothing-Noted s)
close_all-Noted host (e ∷ es) s =
    then_leaves _ (close_session-Noted host e.session_id _ s) (λ t h. h)
      (λ _ h. leaves (Noted-next h (close_all-Noted host es _).holds))

pub sign_out-Traced : (host : Host) (s : AdminStore) → Leaves (Traced s) (sign_out host s)
unfolding sign_out
sign_out-Traced host s = past _ _ _ (
    then_leaves _ (close_all-Noted host _ s) (λ t h. Noted-Traced h)
      (λ _ h. leaves (record {
        news = h.news;
        trail = record { grown = h.trail.grown; named = h.trail.named };
        kept = inl h.unchanged;
      })))

pub sign_in-Traced :
    (host : Host) (who : Option String) (s : AdminStore) → Leaves (Traced s) (sign_in host who s)
unfolding sign_in
sign_in-Traced host who s =
    next _ (nothing-Traced s) (λ _ _. past _ _ _ (leaves (silent-Traced s _ refl (refl, refl))))

pub redeem_handoff-Traced :
    (host : Host) (code : String) (s : AdminStore) → Leaves (Traced s) (redeem_handoff host code s)
unfolding redeem_handoff sign_in
redeem_handoff-Traced host code s =
    let silent = silent-Traced s s refl (refl, refl) in
    past _ _ _ (
      past _ _ _ (
        next _ (silent-Traced s _ refl (refl, refl)) (λ _ _.
          next _ (silent-Traced s _ refl (refl, refl))
            (λ _ _. past _ _ _ (leaves (silent-Traced s _ refl (refl, refl)))))))

pub issue_handoff-Traced :
    (host : Host) (email : String) (s : AdminStore) → Traced s (issue_handoff host email s).1
unfolding issue_handoff
issue_handoff-Traced host email s = silent-Traced s _ (ground arith) (ground arith, ground arith)

pub start_session-Traced :
    (host : Host) (input : StartSupportSessionInput) (s : AdminStore)
    → Leaves (Traced s) (start_session host input s)
unfolding start_session
start_session-Traced host input s =
    let h = nothing-Traced s in
    next _ h (λ _ _. next _ h (λ _ _. next _ h (λ _ _. next _ h (λ _ _. next _ h (λ _ _.
      next _ h (λ _ _.
        past _ _ _
          (past _ _ _ (leaves (Noted-Traced (event-Noted s _ _ refl refl (refl, refl) refl))))))))))

pub elevate_session-Traced :
    (host : Host) (id reason : String) (s : AdminStore)
    → Leaves (Traced s) (elevate_session host id reason s)
unfolding elevate_session
elevate_session-Traced host id reason s =
    let h = nothing-Traced s in
    next _ h (λ _ _. next _ h (λ _ _. next _ h (λ _ _. next _ h (λ _ _. next _ h (λ _ _.
      next _ h (λ _ _. past _ _ _ (
        next _ (silent-Traced s _ refl (refl, refl)) (λ _ _.
          past _ _ _ (leaves (Noted-Traced (event-Noted s _ _ refl refl (refl, refl) refl)))))))))))

pub extend_session-Traced :
    (host : Host) (id : String) (s : AdminStore) → Leaves (Traced s) (extend_session host id s)
unfolding extend_session
extend_session-Traced host id s =
    let h = nothing-Traced s in
    next _ h (λ _ _. next _ h (λ _ _. next _ h (λ _ _. past _ _ _ (
      next _ (silent-Traced s _ refl (refl, refl)) (λ _ _.
        past _ _ _ (leaves (Noted-Traced (event-Noted s _ _ refl refl (refl, refl) refl))))))))

pub revoke_session-Traced :
    (host : Host) (id : String) (s : AdminStore) → Leaves (Traced s) (revoke_session host id s)
unfolding revoke_session
revoke_session-Traced host id s =
    next _ (nothing-Traced s) (λ _ _. leaves (Noted-Traced (close_session-Noted host id _ s).holds))
