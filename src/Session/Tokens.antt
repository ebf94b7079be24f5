-- ===== src/Session/Tokens.antt =====
-- The tokens of the state machine: each is drawn once, and a consumed one stays consumed.
use mathlib.Core.Option.{some-injective}
use dingdongditch.Prelude.{
  ℕ, ◌<◌, ◌≤◌, String, ◌≡◌, ◌≢◌, refl, sym, ap, ◌∙◌, ◌⊎◌, inl, inr, Bool, Bool-cases, true, false,
  ◌||◌, some, List, [], ◌∷◌, is_some, arith,
}
use dingdongditch.Prelude.Equality.{◌==◌, ==→eq, string_eq}
use dingdongditch.ReceiptChain.{Values}
use dingdongditch.Session.{Host, PreparationStatus, prepared, committed, preparation_status_eq}
use dingdongditch.Session.Program.{lookup, adjust}
use dingdongditch.Session.Transaction.{put}
use dingdongditch.Session.Governance.{
  Governance, void_all, Step, answers, prepares, voids, voids_all, consumes, offers_control, claims,
  seals, Steps, stays, ◌▸◌,
}

module _ {ℓ} {A : Type ℓ} where
  has-put :
      (key token : String) (a : A) (entries : List (String × A))
      → is_some (lookup token (put key a entries))
        ≡ (key == token || is_some (lookup token entries))
  has-put key token a [] = ground arith
  has-put key token a (entry ∷ entries) = ground (arith, has-put key token a entries)

  has-adjust :
      (key token : String) (f : A → A) (entries : List (String × A))
      → is_some (lookup token (adjust key f entries)) ≡ is_some (lookup token entries)
  has-adjust key token f [] = refl
  has-adjust key token f (entry ∷ entries) = ground (arith, has-adjust key token f entries)

  lookup-put-other :
      (key token : String) (a : A) (entries : List (String × A))
      → key ≢ token
      → lookup token (put key a entries) ≡ lookup token entries
  lookup-put-other key token a [] differ = ground arith
  lookup-put-other key token a (entry ∷ entries) differ =
      ground (arith, lookup-put-other key token a entries)

  lookup-adjust-other :
      (key token : String) (f : A → A) (entries : List (String × A))
      → key ≢ token
      → lookup token (adjust key f entries) ≡ lookup token entries
  lookup-adjust-other key token f [] differ = refl
  lookup-adjust-other key token f (entry ∷ entries) differ =
      ground (arith, lookup-adjust-other key token f entries)

has-void_all :
    (token : String) (entries : List (String × PreparationStatus))
    → is_some (lookup token (void_all entries)) ≡ is_some (lookup token entries)
has-void_all token [] = refl
has-void_all token (entry ∷ entries) = ground (arith, has-void_all token entries)

committed-void_all :
    (token : String) (entries : List (String × PreparationStatus))
    → lookup token entries ≡ some committed
    → lookup token (void_all entries) ≡ some committed
committed-void_all token [] h = ground arith
committed-void_all token (entry ∷ entries) h = ground (arith, committed-void_all token entries)

-- A token that is prepared is not one that is committed.
prepared_other :
    (key token : String) (entries : List (String × PreparationStatus))
    → lookup key entries ≡ some prepared
    → lookup token entries ≡ some committed
    → key ≢ token
prepared_other key token entries h1 h2 = ground arith

module _ {values : Values} (host : Host values) where
  open host use {token_urlsafe}

  -- The generator does not repeat itself.
  abbrev pub Distinct : Type 0
  Distinct = (m n : ℕ) → token_urlsafe m ≡ token_urlsafe n → m ≡ n

  -- One of the first `n` answers is this token.
  abbrev pub Drawn : ℕ → String → Type 0
  Drawn n token = (i : ℕ) × ((i < n) × (token_urlsafe i ≡ token))

  -- Every token that the machine knows of was drawn.
  pub record WellDrawn (g : Governance host) : Type 0 where
    pub statuses_drawn : (t : String) → is_some (lookup t g.statuses) ≡ true → Drawn g.drawn t
    pub offers_drawn : (t : String) → is_some (lookup t g.offers) ≡ true → Drawn g.drawn t
    pub lease_drawn : (t : String) → g.lease ≡ some t → Drawn g.drawn t

  Drawn-later : (m n : ℕ) (t : String) → m ≤ n → Drawn m t → Drawn n t
  Drawn-later m n t le (i, (below, is)) = (i, (omega arith, is))

  -- A number of tokens later, the one that was next has been drawn.
  Drawn-next : (m n : ℕ) → m < n → Drawn n (token_urlsafe m)
  Drawn-next m n below = (m, (below, refl))

  Drawn-new :
      (m n : ℕ) (t : String) (old : Bool)
      → m < n
      → (old ≡ true → Drawn m t)
      → (token_urlsafe m == t || old) ≡ true
      → Drawn n t
  Drawn-new m n t old below before h = elim (split (token_urlsafe m == t) refl) [
    | inl same ↦ (m, (below, ==→eq _ _ same))
    | inr differ ↦ Drawn-later m n t (omega arith) (before (rest differ))
  ]
    where
      split : (b : Bool) → (token_urlsafe m == t) ≡ b → (b ≡ true) ⊎ (b ≡ false)
      split b e = Bool-cases b

      rest : (token_urlsafe m == t) ≡ false → old ≡ true
      rest e = ground arith

  Step-WellDrawn : {g h : Governance host} → Step host g h → WellDrawn g → WellDrawn h
  Step-WellDrawn {g = g} (answers n) w = record {
    statuses_drawn = λ t h. Drawn-later _ _ t (omega arith) (w.statuses_drawn t h);
    offers_drawn = λ t h. Drawn-later _ _ t (omega arith) (w.offers_drawn t h);
    lease_drawn = λ t h. Drawn-later _ _ t (omega arith) (w.lease_drawn t h);
  }
  Step-WellDrawn {g = g} (prepares n) w = record {
    statuses_drawn = λ t h.
        Drawn-new g.drawn _ t (is_some (lookup t g.statuses)) (omega arith) (w.statuses_drawn t)
          (sym (has-put _ t prepared g.statuses) ∙ h);
    offers_drawn = λ t h. Drawn-later _ _ t (omega arith) (w.offers_drawn t h);
    lease_drawn = λ t h. Drawn-later _ _ t (omega arith) (w.lease_drawn t h);
  }
  Step-WellDrawn {g = g} (voids token held) w = record {
    statuses_drawn = λ t h. w.statuses_drawn t (sym (has-adjust token t _ g.statuses) ∙ h);
    offers_drawn = w.offers_drawn;
    lease_drawn = w.lease_drawn;
  }
  Step-WellDrawn {g = g} voids_all w = record {
    statuses_drawn = λ t h. w.statuses_drawn t (sym (has-void_all t g.statuses) ∙ h);
    offers_drawn = w.offers_drawn;
    lease_drawn = w.lease_drawn;
  }
  Step-WellDrawn {g = g} (consumes token held) w = record {
    statuses_drawn = λ t h. w.statuses_drawn t (sym (has-adjust token t _ g.statuses) ∙ h);
    offers_drawn = w.offers_drawn;
    lease_drawn = w.lease_drawn;
  }
  Step-WellDrawn {g = g} (offers_control n) w = record {
    statuses_drawn = λ t h. Drawn-later _ _ t (omega arith) (w.statuses_drawn t h);
    offers_drawn =
        λ t h. Drawn-new g.drawn _ t false (omega arith) (λ absurd. ground arith) (ground arith);
    lease_drawn = λ t h. Drawn-later _ _ t (omega arith) (w.lease_drawn t h);
  }
  Step-WellDrawn {g = g} (claims offered agent there) w = record {
    statuses_drawn = λ t h. Drawn-later _ _ t (omega arith) (w.statuses_drawn t h);
    offers_drawn = λ t h. ground arith;
    lease_drawn = λ t h. (g.drawn, (omega arith, some-injective _ _ h));
  }
  Step-WellDrawn (seals receipt operation) w = record {
    statuses_drawn = w.statuses_drawn;
    offers_drawn = w.offers_drawn;
    lease_drawn = w.lease_drawn;
  }

  -- Every step keeps to tokens that were drawn.
  pub Steps-WellDrawn : {g h : Governance host} → Steps host g h → WellDrawn g → WellDrawn h
  Steps-WellDrawn stays w = w
  Steps-WellDrawn (p ▸ ps) w = Steps-WellDrawn ps (Step-WellDrawn p w)

  -- A token that is the generator's next is none that was drawn.
  next_other : Distinct → (n : ℕ) (t : String) → Drawn n t → token_urlsafe n ≢ t
  next_other distinct n t (i, (below, is)) same =
      let equal : i ≡ n = distinct i n (is ∙ sym same) in omega arith

  Step-committed :
      {g h : Governance host} (t : String)
      → Distinct
      → WellDrawn g
      → Step host g h
      → lookup t g.statuses ≡ some committed
      → lookup t h.statuses ≡ some committed
  Step-committed t distinct w (answers n) c = c
  Step-committed {g = g} t distinct w (prepares n) c =
      lookup-put-other _ t prepared g.statuses
        (next_other distinct g.drawn t (w.statuses_drawn t (ap is_some c)))
      ∙ c
  Step-committed {g = g} t distinct w (voids token held) c =
      lookup-adjust-other token t _ g.statuses (prepared_other token t g.statuses held c) ∙ c
  Step-committed {g = g} t distinct w voids_all c = committed-void_all t g.statuses c
  Step-committed {g = g} t distinct w (consumes token held) c =
      lookup-adjust-other token t _ g.statuses (prepared_other token t g.statuses held c) ∙ c
  Step-committed t distinct w (offers_control n) c = c
  Step-committed t distinct w (claims offered agent there) c = c
  Step-committed t distinct w (seals receipt operation) c = c

  -- A token that is consumed stays consumed, whatever steps follow.
  pub Steps-committed :
      {g h : Governance host} (t : String)
      → Distinct
      → WellDrawn g
      → Steps host g h
      → lookup t g.statuses ≡ some committed
      → lookup t h.statuses ≡ some committed
  Steps-committed t distinct w stays c = c
  Steps-committed t distinct w (p ▸ ps) c =
      Steps-committed t distinct (Step-WellDrawn p w) ps (Step-committed t distinct w p c)
