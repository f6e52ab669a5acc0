-- ===== src/Console/Trail/Events.antt =====
-- What a call adds to the trail of the console, and what it may change.
use twenty_four.Prelude.{
  ◌≡◌, refl, ap, ◌∙◌, ◌≢◌, ◌⊎◌, inl, inr, Bool, true, false, not, List, [], ◌∷◌, ◌++◌, All,
  All-append, All-weaken,
}
use twenty_four.Prelude.Equality.{eq_ℕ, eq_String}
use twenty_four.Console.Data.{AdminStore, AuditEvent}
use twenty_four.Console.Directory.{is_support, is_platform_admin}
use twenty_four.Console.Registry.{is_ladder}

abbrev pub Unchanged : AdminStore → AdminStore → Type 0
Unchanged s t = (t.tenants ≡ s.tenants) × (t.grants ≡ s.grants)

abbrev pub MayWrite : AdminStore → Type 0
MayWrite s = (s.signed_in ≡ true) × (is_support s.session.role ≡ false)

-- What the tiers grant stays, or a platform admin changes it and the tiers still form a ladder.
abbrev pub RegistryKept : AdminStore → AdminStore → Type 0
RegistryKept s t =
    (t.grants ≡ s.grants)
    ⊎ ((is_platform_admin s.session.role ≡ true) × (is_ladder t.grants ≡ true))

-- The trail grows at its front, by events that name who is signed in.
pub record Trail (s t : AdminStore) (news : List AuditEvent) : Type 0 where
  pub grown : t.audit ≡ news ++ s.audit
  pub named : All (λ e. e.actor ≡ s.session.name) news

-- A call that changes a tenant or the tiers is made by someone who may write, and leaves an event.
pub record Traced (s t : AdminStore) : Type 0 where
  pub news : List AuditEvent
  pub trail : Trail s t news
  pub kept : Unchanged s t ⊎ (MayWrite s × (news ≢ []) × RegistryKept s t)

-- A call that changes neither, nor who is signed in.
pub record Noted (s t : AdminStore) : Type 0 where
  pub news : List AuditEvent
  pub trail : Trail s t news
  pub unchanged : Unchanged s t
  pub worker : t.session.name ≡ s.session.name

++-assoc : (xs ys zs : List AuditEvent) → xs ++ (ys ++ zs) ≡ (xs ++ ys) ++ zs
++-assoc [] ys zs = refl
++-assoc (x ∷ xs) ys zs = ap (λ l. x ∷ l) (++-assoc xs ys zs)

pub Noted-next : {s t u : AdminStore} → Noted s t → Noted t u → Noted s u
Noted-next {s} {t} {u} h k = record {
  news = k.news ++ h.news;
  trail = record {
    grown = k.trail.grown ∙ ap (λ l. k.news ++ l) h.trail.grown ∙ ++-assoc k.news h.news s.audit;
    named =
        All-append (λ e. e.actor ≡ s.session.name) k.news h.news
          (All-weaken k.news (λ e same. same ∙ h.worker) k.trail.named) h.trail.named;
  };
  unchanged = (k.unchanged.0 ∙ h.unchanged.0, k.unchanged.1 ∙ h.unchanged.1);
  worker = k.worker ∙ h.worker;
}

pub nothing-Noted : (s : AdminStore) → Noted s s
nothing-Noted s = record {
  news = [];
  trail = record { grown = refl; named = tt };
  unchanged = (refl, refl);
  worker = refl;
}

-- One event, and no tenant is touched.
pub event-Noted :
    (s t : AdminStore) (e : AuditEvent)
    → t.audit ≡ e ∷ s.audit
    → e.actor ≡ s.session.name
    → Unchanged s t
    → t.session.name ≡ s.session.name
    → Noted s t
event-Noted s t e grown named unchanged worker = record {
  news = e ∷ [];
  trail = record { grown = grown; named = (named, tt) };
  unchanged = unchanged;
  worker = worker;
}

pub Noted-Traced : {s t : AdminStore} → Noted s t → Traced s t
Noted-Traced h = record { news = h.news; trail = h.trail; kept = inl h.unchanged }

-- Nothing is written to the trail, and no tenant is touched.
pub silent-Traced : (s t : AdminStore) → t.audit ≡ s.audit → Unchanged s t → Traced s t
silent-Traced s t same unchanged = record {
  news = [];
  trail = record { grown = same; named = tt };
  kept = inl unchanged;
}

pub of_not : (b : Bool) → not b ≡ false → b ≡ true
of_not true h = refl
of_not false h = cc

-- A write, and its event.
pub written :
    (s t : AdminStore) (e : AuditEvent) (es : List AuditEvent)
    → t.audit ≡ e ∷ es ++ s.audit
    → All (λ x. x.actor ≡ s.session.name) (e ∷ es)
    → not s.signed_in ≡ false
    → is_support s.session.role ≡ false
    → RegistryKept s t
    → Traced s t
written s t e es grown named inside writer registry = record {
  news = e ∷ es;
  trail = record { grown = grown; named = named };
  kept = inr ((of_not s.signed_in inside, writer), λ empty. cc, registry);
}

pub nothing-Traced : (s : AdminStore) → Traced s s
nothing-Traced s = Noted-Traced (nothing-Noted s)
