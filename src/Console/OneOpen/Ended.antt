-- ===== src/Console/OneOpen/Ended.antt =====
-- What it takes that only the newest support session of the console is open.
use twenty_four.Prelude.{
  ℕ, ◌+◌, ◌≤◌, ◌≡◌, refl, inl, inr, Bool, false, not, List, [], ◌∷◌, arith, if◌then◌else◌,
  Bool-cases, All, exists,
}
use twenty_four.Prelude.Equality.{eq_ℕ, eq_String}
use twenty_four.Console.Data.{AdminStore, SupportSession}
use twenty_four.Console.Doors.{replace_first, is_open}

abbrev pub IsEnded : SupportSession → Type 0
IsEnded e = is_open e ≡ false

-- Only the newest session may be open.
abbrev pub EndedButFirst : List SupportSession → Type 0
EndedButFirst [] = Unit
EndedButFirst (e ∷ es) = All IsEnded es

-- The part of the console that the invariant is about.
pub record Desk : Type 0 where
  pub signed_in : Bool
  pub sessions : List SupportSession

abbrev pub desk : AdminStore → Desk
desk s = record { signed_in = s.signed_in; sessions = s.sessions }

pub record Guarded (d : Desk) : Type 0 where
  pub others : EndedButFirst d.sessions
  pub when_out : d.signed_in ≡ false → All IsEnded d.sessions

abbrev pub GuardedStore : AdminStore → Type 0
GuardedStore s = Guarded (desk s)

abbrev pub count_open : List SupportSession → ℕ
count_open [] = 0
count_open (e ∷ es) = if is_open e then 1 + count_open es else count_open es

pub count_open-ended : (es : List SupportSession) → All IsEnded es → count_open es ≡ 0
count_open-ended [] h = refl
count_open-ended (e ∷ es) (ended, rest) = rw ended (count_open-ended es rest)

pub count_open-EndedButFirst : (es : List SupportSession) → EndedButFirst es → count_open es ≤ 1
count_open-EndedButFirst [] h = omega arith
count_open-EndedButFirst (e ∷ es) h = ground (arith, count_open-ended es h)

pub All-EndedButFirst : (es : List SupportSession) → All IsEnded es → EndedButFirst es
All-EndedButFirst [] ended = tt
All-EndedButFirst (e ∷ es) ended = ended.1

-- A change of one session that ends it or leaves its end alone.
module _ (p : SupportSession → Bool) (f : SupportSession → SupportSession)
    (keeps : (e : SupportSession) → IsEnded e → IsEnded (f e)) where
  replace_first-IsEnded :
      (es : List SupportSession) → All IsEnded es → All IsEnded (replace_first p f es)
  unfolding replace_first
  replace_first-IsEnded [] h = tt
  replace_first-IsEnded (e ∷ es) h = elim (Bool-cases (p e)) [
    | inl found ↦ rw found (keeps e h.0, h.1)
    | inr other ↦ rw other (h.0, replace_first-IsEnded es h.1)
  ]

  replace_first-EndedButFirst :
      (es : List SupportSession) → EndedButFirst es → EndedButFirst (replace_first p f es)
  unfolding replace_first
  replace_first-EndedButFirst [] h = tt
  replace_first-EndedButFirst (e ∷ es) h = elim (Bool-cases (p e)) [
    | inl found ↦ rw found h
    | inr other ↦ rw other (replace_first-IsEnded es h)
  ]

  pub replaced-Guarded :
      (d : Desk) → Guarded d → Guarded (record d { sessions = replace_first p f d.sessions })
  replaced-Guarded d h = record {
    others = replace_first-EndedButFirst d.sessions h.others;
    when_out = λ out. replace_first-IsEnded d.sessions (h.when_out out);
  }

pub open_first :
    (session : SupportSession) (d : Desk)
    → not d.signed_in ≡ false
    → exists is_open d.sessions ≡ false
    → Guarded (record d { sessions = session ∷ d.sessions })
open_first session d inside closed = record {
  others = exists-ended d.sessions closed;
  when_out = λ out. ground (arith, inside, out);
}
  where
    exists-ended : (es : List SupportSession) → exists is_open es ≡ false → All IsEnded es
    exists-ended [] h = tt
    exists-ended (e ∷ es) h = elim (Bool-cases (is_open e)) [
      | inl opened ↦ cc
      | inr ended ↦ (ended, exists-ended es (ground (arith, h)))
    ]
