-- ===== src/Tools/Sources.antt =====
-- agent/tools.py: what stands behind the capabilities of a turn, told from its searches and its writes.
use ah_there_it_is.Base.{
  ℕ, ◌≡◌, refl, subst, ◌⊎◌, inl, inr, true, Option, none, some, List, [], ◌∷◌, ◌++◌, contains, All,
  Bool-cases, ◌==◌, arith,
}
use ah_there_it_is.Text.{Text, is_blank}
use ah_there_it_is.Domain.States.{ok}
use ah_there_it_is.Db.{Db}
use ah_there_it_is.Inventory.Requests.{Reply}
use ah_there_it_is.Tools.Resolution.{
  Kind, Resolution, resolved, ambiguous, no_exact_identity, resolve_with_evidence, resolve,
}
use ah_there_it_is.Tools.Unique.{IsTheMatch, resolve-IsTheMatch}
use ah_there_it_is.Tools.Capabilities.{
  ToolBox, ToolRunState, kind_eq, extend, remember_created, remember_search, remember_seen, grant,
  remember_candidates,
}
use ah_there_it_is.Tools.NewPaths.{ToolReply, served, located}
use ah_there_it_is.Tools.Operations.{
  Write, creates, remember_new, remember_node, remember_path, remember_reply,
}
use ah_there_it_is.Tools.Writes.{queries_of}

-- what happened in a turn: a query was searched for in a database, or a write gave a result
pub data Step : Type 0 where
  asked : Kind → Text → Db → Step
  replied : Write → ToolReply → Step

-- the result of a write is a new entity, or a path with this new node
abbrev pub Makes : Write → ToolReply → Kind → ℕ → Type 0
Makes w (served (Reply.node n)) kind k = (creates w ≡ some kind) × (n.id ≡ k)
Makes w (served (Reply.item i)) kind k = (creates w ≡ some kind) × (i.id ≡ k)
Makes w (located p texts) kind k = (kind ≡ Kind.location) × (contains p.created_ids k ≡ true)
Makes w _ kind k = ⊥

-- the node is on the path, with this text
abbrev pub OnPath : List ℕ → List Text → ℕ → Text → Type 0
OnPath (j ∷ ids) (text ∷ texts) k q = ((j ≡ k) × (text ≡ q)) ⊎ OnPath ids texts k q
OnPath _ _ k q = ⊥

abbrev pub Passes : ToolReply → Kind → ℕ → Text → Type 0
Passes (located p texts) kind k q = (kind ≡ Kind.location) × OnPath p.path_ids texts k q
Passes _ kind k q = ⊥

module _ (box : ToolBox) (Happened : Step → Type 0) where
  -- the entity was made by a write
  abbrev pub IsMade : Kind → ℕ → Type 0
  IsMade kind k =
      (w : Write) × (reply : ToolReply) × Happened (replied w reply) × Makes w reply kind k

  -- the query was searched for, and the entity was its only stored match then; or the entity is on the
  -- path of a location that a write has given, with the query as its text
  abbrev pub IsBacked : Kind → ℕ → Text → Type 0
  IsBacked kind k q =
      ((d : Db) × Happened (asked kind q d) × IsTheMatch box.service.names box.path_key kind q d k)
      ⊎ ((w : Write) × (reply : ToolReply) × Happened (replied w reply) × Passes reply kind k q)

  pub record IsSourced (r : ToolRunState) : Type 0 where
    pub backed : (kind : Kind) (k : ℕ) → All (IsBacked kind k) (queries_of k (r.evidence kind))
    pub made : (kind : Kind) (k : ℕ) → contains (r.created kind) k ≡ true → IsMade kind k

  kind_same : (a b : Kind) → kind_eq a b ≡ true → a ≡ b
  kind_same Kind.item Kind.item e = refl
  kind_same Kind.media Kind.media e = refl
  kind_same Kind.location Kind.location e = refl
  kind_same Kind.category Kind.category e = refl
  kind_same Kind.tag Kind.tag e = refl
  kind_same a b e = absurd (cc)

  queries_grow :
      (P : Text → Type 0) (es : List (ℕ × Text)) (k j : ℕ) (q : Text)
      → (k ≡ j → P q)
      → All P (queries_of j es)
      → All P (queries_of j (es ++ (k, q) ∷ []))
  unfolding queries_of
  queries_grow P [] k j q f h = elim (Bool-cases (k == j)) [
    | inl y ↦ rw y (f (ground arith), tt)
    | inr n ↦ rw n tt
  ]
  queries_grow P ((i, p) ∷ es) k j q f h = elim (Bool-cases (i == j)) [
    | inr n ↦ rw n (queries_grow P es k j q f (rw n at h))
    | inl y ↦ let g = rw y at h in rw y (g.0, queries_grow P es k j q f g.1)
  ]

  grant-IsSourced :
      (r : ToolRunState) (kind : Kind) (k : ℕ) (q : Text)
      → IsBacked kind k q
      → IsSourced r
      → IsSourced (grant kind k q r)
  unfolding extend
  grant-IsSourced r kind k q b h = record {
    backed = λ other j. elim (Bool-cases (kind_eq kind other)) [
      | inr n ↦ rw n (h.backed other j)
      | inl y ↦
          let same = kind_same kind other y in
          rw y (
            queries_grow (IsBacked other j) (r.evidence other) k j q
              (λ e. subst (λ i. IsBacked other i q) e (subst (λ c. IsBacked c k q) same b))
              (h.backed other j))
    ];
    made = h.made;
  }

  created_grows :
      (xs : List ℕ) (k j : ℕ) → contains (xs ++ k ∷ []) j ≡ true → (contains xs j ≡ true) ⊎ (k ≡ j)
  created_grows [] k j e = inr (ground arith)
  created_grows (x ∷ xs) k j e = elim (Bool-cases (x == j)) [
    | inl y ↦ inl (ground arith)
    | inr n ↦ elim (created_grows xs k j (ground arith)) [
      | inl i ↦ inl (ground arith)
      | inr i ↦ inr i
    ]
  ]

  created-IsSourced :
      (r : ToolRunState) (kind : Kind) (k : ℕ)
      → IsMade kind k
      → IsSourced r
      → IsSourced (remember_created kind k r)
  unfolding extend
  created-IsSourced r kind k m h = record {
    backed = h.backed;
    made = λ other j e. elim (Bool-cases (kind_eq kind other)) [
      | inr n ↦ h.made other j (rw n at e)
      | inl y ↦ elim (created_grows (r.created other) k j (rw y at e)) [
        | inl there ↦ h.made other j there
        | inr i ↦ subst (λ x. IsMade other x) i (subst (λ c. IsMade c k) (kind_same kind other y) m)
      ]
    ];
  }

  pub looked-IsSourced :
      (r : ToolRunState) (kind : Kind) (key : Text) (ids : List ℕ)
      → IsSourced r
      → IsSourced (remember_seen kind ids (remember_search kind key r))
  looked-IsSourced r kind key ids h = elim (Bool-cases (is_blank key)) [
    | inl y ↦ rw y (record { backed = h.backed; made = h.made })
    | inr n ↦ rw n (record { backed = h.backed; made = h.made })
  ]

  pub candidates-IsSourced :
      (kind : Kind) (key query : Text) (ids : List ℕ) (d : Db) (x : Resolution) (r : ToolRunState)
      → Happened (asked kind query d)
      → resolve_with_evidence box.service.names box.path_key kind query d ≡ ok x
      → IsSourced r
      → IsSourced (remember_candidates kind key query ids x r)
  unfolding remember_candidates resolve
  candidates-IsSourced kind key query ids d (resolved k e) r was p h =
      elim (Bool-cases (contains ids k)) [
        | inr n ↦ rw n h
        | inl y ↦
            let found : resolve box.service.names box.path_key kind query d ≡ ok (some k) =
              rw (p, resolve) refl in
            rw y (
              grant-IsSourced r kind k query
                (inl
                  (d, was, resolve-IsTheMatch box.service.names box.path_key kind query d k found))
                h)
      ]
  candidates-IsSourced kind key query ids d ambiguous r was p h = h
  candidates-IsSourced kind key query ids d no_exact_identity r was p h =
      elim (Bool-cases (is_blank key)) [
        | inl y ↦ rw y h
        | inr n ↦ rw n (record { backed = h.backed; made = h.made })
      ]

  new-IsSourced :
      (kind : Option Kind) (k : ℕ) (r : ToolRunState)
      → ((c : Kind) → kind ≡ some c → IsMade c k)
      → IsSourced r
      → IsSourced (remember_new kind k r)
  new-IsSourced none k r m h = h
  new-IsSourced (some kind) k r m h = created-IsSourced r kind k (m kind refl) h

  path-IsSourced :
      (created ids : List ℕ) (texts : List Text) (r : ToolRunState)
      → ((k : ℕ) → contains created k ≡ true → IsMade Kind.location k)
      → ((k : ℕ) (q : Text) → OnPath ids texts k q → IsBacked Kind.location k q)
      → IsSourced r
      → IsSourced (remember_path created ids texts r)
  unfolding remember_path
  path-IsSourced created [] texts r m b h = h
  path-IsSourced created (k ∷ ks) [] r m b h = h
  path-IsSourced created (k ∷ ks) (text ∷ texts) r m b h =
      path-IsSourced created ks texts (remember_node created k text r) m (λ j q on. b j q (inr on))
        (elim (Bool-cases (contains created k)) [
          | inl y ↦ rw y (created-IsSourced r Kind.location k (m k y) h)
          | inr n ↦
              let g = grant-IsSourced r Kind.location k text (b k text (inl (refl, refl))) h in
              rw n (record { backed = g.backed; made = g.made })
        ])

  pub reply-IsSourced :
      (w : Write) (reply : ToolReply) (r : ToolRunState)
      → Happened (replied w reply)
      → IsSourced r
      → IsSourced (remember_reply w reply r)
  unfolding remember_reply
  reply-IsSourced w (served (Reply.node n)) r was h =
      new-IsSourced (creates w) n.id r (λ c e. (w, served (Reply.node n), was, (e, refl))) h
  reply-IsSourced w (served (Reply.item i)) r was h =
      new-IsSourced (creates w) i.id r (λ c e. (w, served (Reply.item i), was, (e, refl))) h
  reply-IsSourced w (served (Reply.photo m)) r was h = record { backed = h.backed; made = h.made }
  reply-IsSourced w (served (Reply.path p)) r was h = h
  reply-IsSourced w (located p texts) r was h =
      path-IsSourced p.created_ids p.path_ids texts r (λ k e. (w, located p texts, was, (refl, e)))
        (λ k q on. inr (w, located p texts, was, (refl, on))) h
