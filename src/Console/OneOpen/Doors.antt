-- ===== src/Console/OneOpen/Doors.antt =====
-- packages/mock/src/admin/store.ts: signing in and out leaves at most the newest support session open.
use twenty_four.Prelude.{
  String, ◌≡◌, refl, ap, inl, inr, true, Option, some, List, [], ◌∷◌, arith, Bool-cases, All,
  select,
}
use twenty_four.Prelude.Equality.{◌==◌, eq_ℕ, eq_String, ==_refl}
use twenty_four.Prelude.Stateful.{Leaves, leaves, next, past, past_eq, then_leaves, when}
use twenty_four.Console.Data.{AdminStore, SupportSession, Host}
use twenty_four.Console.Doors.{
  replace_first, is_open, close_session, close_all, sign_out, sign_in, redeem_handoff,
  issue_handoff, require_found, find_session,
}
use twenty_four.Console.OneOpen.Ended.{
  IsEnded, EndedButFirst, desk, GuardedStore, All-EndedButFirst,
}

pub sign_in-Guarded :
    (host : Host) (who : Option String) (s : AdminStore)
    → GuardedStore s
    → Leaves GuardedStore (sign_in host who s)
unfolding sign_in
sign_in-Guarded host who s h =
    next _ h (λ _ _. past _ _ _ (leaves (record { others = h.others; when_out = λ out. cc })))

pub redeem_handoff-Guarded :
    (host : Host) (code : String) (s : AdminStore)
    → GuardedStore s
    → Leaves GuardedStore (redeem_handoff host code s)
unfolding redeem_handoff
redeem_handoff-Guarded host code s h =
    past _ _ _ (past _ _ _ (next _ h (λ role _. sign_in-Guarded host _ _ h)))

pub issue_handoff-desk :
    (host : Host) (email : String) (s : AdminStore) → desk (issue_handoff host email s).1 ≡ desk s
unfolding issue_handoff
issue_handoff-desk host email s = ground arith

-- Closing the newest session leaves none open.
end_first :
    (host : Host) (e : SupportSession) (es sessions : List SupportSession)
    → sessions ≡ e ∷ es
    → All IsEnded es
    → All IsEnded (
        replace_first
          (λ x. x.session_id == e.session_id)
          (λ x. record x { ended_at = some host.now })
          sessions)
unfolding replace_first
end_first host e es sessions same ended = rw same (rw (==_refl e.session_id) (refl, ended))

find_first :
    (e : SupportSession) (es : List SupportSession) (s : AdminStore)
    → s.sessions ≡ e ∷ es
    → find_session e.session_id s ≡ some e
find_first e es s same = rw same (rw (==_refl e.session_id) refl)

AllEnded : AdminStore → Type 0
AllEnded s = All IsEnded s.sessions

close_first :
    (host : Host) (why : String) (e : SupportSession) (es : List SupportSession) (s : AdminStore)
    → s.sessions ≡ e ∷ es
    → is_open e ≡ true
    → All IsEnded es
    → Leaves AllEnded (close_session host e.session_id why s)
unfolding close_session when AllEnded
close_first host why e es s same opened ended =
    past_eq e s _ (ap (λ x. (require_found x, s)) (find_first e es s same))
      (rw opened (past _ _ _ (leaves (end_first host e es s.sessions same ended))))

select-ended : (es : List SupportSession) → All IsEnded es → select is_open es ≡ []
select-ended [] h = refl
select-ended (e ∷ es) (ended, rest) = rw ended (select-ended es rest)

-- Signing out closes what is open.
close_open :
    (host : Host) (es : List SupportSession) (s : AdminStore)
    → s.sessions ≡ es
    → EndedButFirst es
    → Leaves AllEnded (close_all host (select is_open es) s)
unfolding close_all AllEnded
close_open host [] s same h = leaves (rw same tt)
close_open host (e ∷ es) s same h = elim (Bool-cases (is_open e)) [
  | inl opened ↦
      rw (opened, select-ended es h)
        (then_leaves _ (close_first host _ e es s same opened h) (λ t p. p) (λ u p. leaves p))
  | inr ended ↦ rw (ended, select-ended es h) (leaves (rw same (ended, h)))
]

pub sign_out-Guarded :
    (host : Host) (s : AdminStore) → GuardedStore s → Leaves GuardedStore (sign_out host s)
unfolding sign_out AllEnded
sign_out-Guarded host s h = past _ _ _ (
    then_leaves _ (close_open host s.sessions s refl h.others)
      (λ t ended. record { others = All-EndedButFirst t.sessions ended; when_out = λ _. ended })
      (λ _ ended. leaves (record { others = All-EndedButFirst _ ended; when_out = λ _. ended })))
