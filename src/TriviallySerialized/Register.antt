-- ===== src/TriviallySerialized/Register.antt =====
-- `register_serializable_type` of trivsercache.hpp fills the cache with the answers of
-- `compute_trivially_serialized` for a type and all types below it.
use rmw_cyclonedds.Base.{
  ℕ, zero, suc, ◌+◌, ◌<◌, ◌≤◌, ◌≡◌, refl, sym, ap, ◌∙◌, Bool, true, false, none, some, List, [],
  ◌∷◌, arith, Bool-cases, Option-cases, inl, inr, ◌⊎◌, Result, ok, ◌>>=◌,
}
use mathlib.Core.Path.{subst}
use rmw_cyclonedds.TypeSupport.{
  AnyValueType, primitive_value_type, u8_string_value_type, u16_string_value_type,
  struct_value_type, array_value_type, span_sequence_value_type, bool_vector_value_type, Members,
  end, member,
}
use rmw_cyclonedds.TriviallySerialized.{
  CacheKey, Cache, key_eq, find, assign, register_aligns, register_serializable_type,
  register_members, make_cache,
}
use rmw_cyclonedds.TriviallySerialized.Dense.{dense}
use rmw_cyclonedds.TriviallySerialized.Compute.{
  compute_trivially_serialized-dense, is_trivially_serialized-dense,
}
use rmw_cyclonedds.TriviallySerialized.Covers.{Answers, Parts, CoversMembers, Covers}
use rmw_cyclonedds.TriviallySerialized.Entries.{
  key_eq_refl, key_eq→eq, find-assign_self, find-assign_other,
}

-- A type is heavier than the types below it.
mutual
  weight : AnyValueType → ℕ
  weight (primitive_value_type k) = 1
  weight (u8_string_value_type size bound) = 1
  weight (u16_string_value_type size bound) = 1
  weight (struct_value_type size members) = suc (weight_members members)
  weight (array_value_type element n) = suc (weight element)
  weight (span_sequence_value_type size element bound) = suc (weight element)
  weight (bool_vector_value_type size bound) = 1

  weight_members : Members → ℕ
  weight_members end = 0
  weight_members (member vt offset is_key rest) = weight vt + weight_members rest

weight_pos : (t : AnyValueType) → 0 < weight t
unfolding weight
weight_pos (primitive_value_type k) = omega arith
weight_pos (u8_string_value_type size bound) = omega arith
weight_pos (u16_string_value_type size bound) = omega arith
weight_pos (struct_value_type size members) = omega arith
weight_pos (array_value_type element n) = omega arith
weight_pos (span_sequence_value_type size element bound) = omega arith
weight_pos (bool_vector_value_type size bound) = omega arith

module _ (same : AnyValueType → AnyValueType → Bool)
    (sound : (a b : AnyValueType) → same a b ≡ true → a ≡ b)
    (reflexive : (a : AnyValueType) → same a a ≡ true) where
  abbrev Kept : ℕ → Cache → Cache → Type 0
  Kept w c c' =
      (k : CacheKey) (b : Bool)
      → weight k.value_type < w
      → find same k c ≡ some b
      → find same k c' ≡ some b

  -- Below the weight `w` each entry is right, and the parts of its type are covered.
  abbrev Inv : ℕ → Cache → Type 0
  Inv w c =
      (k : CacheKey) (b : Bool)
      → weight k.value_type < w
      → find same k c ≡ some b
      → (b ≡ dense k.value_type k.align) × Parts same c k.value_type

  -- Entries stay, and those that are new are for types below the weight `w`.
  record Extends (w : ℕ) (c c' : Cache) : Type 0 where
    kept : (k : CacheKey) (b : Bool) → find same k c ≡ some b → find same k c' ≡ some b
    added :
        (k : CacheKey) (b : Bool)
        → find same k c' ≡ some b
        → (find same k c ≡ some b) ⊎ (weight k.value_type < w)

  Extends-refl : (w : ℕ) (c : Cache) → Extends w c c
  Extends-refl w c = record { kept = λ k b h. h; added = λ k b h. inl h }

  Extends-trans :
      (u v w : ℕ) {c c' c'' : Cache}
      → u ≤ w
      → v ≤ w
      → Extends u c c'
      → Extends v c' c''
      → Extends w c c''
  Extends-trans u v w hu hv e f = record {
    kept = λ k b h. f.kept k b (e.kept k b h);
    added = λ k b h. elim (f.added k b h) [
      | inr l ↦ inr (omega arith)
      | inl g ↦ elim (e.added k b g) [ inl o ↦ inl o | inr l ↦ inr (omega arith) ]
    ];
  }

  Answers-mono :
      (w : ℕ) (c c' : Cache) (t : AnyValueType)
      → Kept w c c'
      → weight t < w
      → Answers same c t
      → Answers same c' t
  Answers-mono w c c' t kept h answers a below = kept _ _ h (answers a below)

  mutual
    unfolding weight weight_members Parts CoversMembers

    Parts-mono :
        (t : AnyValueType) (w : ℕ) (c c' : Cache)
        → Kept w c c'
        → weight t ≤ w
        → Parts same c t
        → Parts same c' t
    Parts-mono (primitive_value_type k) w c c' kept h p = p
    Parts-mono (u8_string_value_type size bound) w c c' kept h p = p
    Parts-mono (u16_string_value_type size bound) w c c' kept h p = p
    Parts-mono (struct_value_type size members) w c c' kept h p =
        CoversMembers-mono members w c c' kept h p
    Parts-mono (array_value_type element n) w c c' kept h p =
        (Answers-mono w c c' element kept h p.0, Parts-mono element w c c' kept (omega arith) p.1)
    Parts-mono (span_sequence_value_type size element bound) w c c' kept h p =
        (Answers-mono w c c' element kept h p.0, Parts-mono element w c c' kept (omega arith) p.1)
    Parts-mono (bool_vector_value_type size bound) w c c' kept h p = p

    CoversMembers-mono :
        (ms : Members) (w : ℕ) (c c' : Cache)
        → Kept w c c'
        → weight_members ms < w
        → CoversMembers same c ms
        → CoversMembers same c' ms
    CoversMembers-mono end w c c' kept h p = p
    CoversMembers-mono (member vt offset is_key rest) w c c' kept h p = (
      (
        Answers-mono w c c' vt kept (omega arith) p.0.0,
        Parts-mono vt w c c' kept (omega arith) p.0.1,
      ),
      CoversMembers-mono rest w c c' kept (omega arith) p.1,
    )

  abbrev key_of : AnyValueType → ℕ → CacheKey
  key_of t a = record { align = a; value_type = t }

  other_of_lt :
      (t : AnyValueType) (a : ℕ) (k : CacheKey)
      → weight k.value_type < weight t
      → key_eq same (key_of t a) k ≡ false
  other_of_lt t a k h = elim (Bool-cases (key_eq same (key_of t a) k)) [
    | inr e ↦ e
    | inl e ↦
        let same_weight : weight t ≡ weight k.value_type =
          ap (λ (x : CacheKey). weight x.value_type)
            (key_eq→eq same sound reflexive (key_of t a) k e) in
        absurd (omega arith)
  ]

  other_of_found :
      (t : AnyValueType) (a : ℕ) (k : CacheKey) (b : Bool) (c : Cache)
      → find same (key_of t a) c ≡ none
      → find same k c ≡ some b
      → key_eq same (key_of t a) k ≡ false
  other_of_found t a k b c h g = elim (Bool-cases (key_eq same (key_of t a) k)) [
    | inr e ↦ e
    | inl e ↦ cc (
        subst (λ (x : CacheKey). find same x c ≡ none)
          (key_eq→eq same sound reflexive (key_of t a) k e) h)
  ]

  -- What a turn of the loop does to the entry of `t` at `a`, and to the others.
  record Turn (t : AnyValueType) (a : ℕ) (c c' : Cache) : Type 0 where
    kept :
        (k : CacheKey) (b : Bool)
        → key_eq same (key_of t a) k ≡ false
        → find same k c ≡ some b
        → find same k c' ≡ some b
    added :
        (k : CacheKey) (b : Bool)
        → key_eq same (key_of t a) k ≡ false
        → find same k c' ≡ some b
        → (find same k c ≡ some b) ⊎ (weight k.value_type < weight t)
    answer : find same (key_of t a) c' ≡ some (dense t a)
    parts : Parts same c' t
    inv : Inv (weight t) c'

  -- What registering the parts of `t` does.
  abbrev Registers : AnyValueType → (Cache → Result Cache) → Type 0
  Registers t children =
      (c : Cache)
      → Inv (weight t) c
      → (c' : Cache) × (children c ≡ ok c')
        × Extends (weight t) c c'
        × Inv (weight t) c'
        × Parts same c' t

  abbrev set : AnyValueType → ℕ → Bool → Cache → Cache
  set t a r c = assign same (key_of t a) r c

  set-Kept : (t : AnyValueType) (a : ℕ) (r : Bool) (c : Cache) → Kept (weight t) c (set t a r c)
  set-Kept t a r c k b h g =
      find-assign_other same sound reflexive k (key_of t a) r c (other_of_lt t a k h) ∙ g

  set-Inv :
      (t : AnyValueType) (a : ℕ) (r : Bool) (c : Cache)
      → Inv (weight t) c
      → Inv (weight t) (set t a r c)
  set-Inv t a r c inv k b h g =
      let old =
        sym (find-assign_other same sound reflexive k (key_of t a) r c (other_of_lt t a k h)) ∙ g in
      let (right, p) = inv k b h old in
      (right, Parts-mono k.value_type (weight t) c (set t a r c) (set-Kept t a r c) (omega arith) p)

  Turn-set_last :
      (t : AnyValueType) (children : Cache → Result Cache)
      → Registers t children
      → (a : ℕ) (r b : Bool) (c : Cache) → r ≡ dense t a
      → find same (key_of t a) c ≡ some b
      → Inv (weight t) c
      → (c' : Cache) × ((children c >>= λ x. ok (set t a r x)) ≡ ok c') × Turn t a c c'
  Turn-set_last t children registers a r b c e entered inv =
      let (c₂, run, ext, inv₂, parts) = registers c inv in
      (
        set t a r c₂,
        rw run,
        record {
          kept = λ k b' other h.
              find-assign_other same sound reflexive k (key_of t a) r c₂ other ∙ ext.kept k b' h;
          added = λ k b' other h.
              ext.added k b'
                (sym (find-assign_other same sound reflexive k (key_of t a) r c₂ other) ∙ h);
          answer =
              find-assign_self same sound reflexive (key_of t a) r b c₂
                (ext.kept (key_of t a) b entered)
              ∙ ap some e;
          parts = Parts-mono t (weight t) c₂ (set t a r c₂) (set-Kept t a r c₂) (omega arith) parts;
          inv = set-Inv t a r c₂ inv₂;
        },
      )

  Turn-set_first :
      (t : AnyValueType) (children : Cache → Result Cache)
      → Registers t children
      → (a : ℕ) (r b : Bool) (c : Cache) → r ≡ dense t a
      → find same (key_of t a) c ≡ some b
      → Inv (weight t) c
      → (c' : Cache) × (children (set t a r c) ≡ ok c') × Turn t a c c'
  Turn-set_first t children registers a r b c e entered inv =
      let (c₃, run, ext, inv₃, parts) = registers (set t a r c) (set-Inv t a r c inv) in
      (
        c₃,
        run,
        record {
          kept = λ k b' other h.
              ext.kept k b' (find-assign_other same sound reflexive k (key_of t a) r c other ∙ h);
          added = λ k b' other h. elim (ext.added k b' h) [
            | inr l ↦ inr l
            | inl o ↦
                inl (sym (find-assign_other same sound reflexive k (key_of t a) r c other) ∙ o)
          ];
          answer =
              ext.kept (key_of t a) (dense t a)
                (find-assign_self same sound reflexive (key_of t a) r b c entered ∙ ap some e);
          parts = parts;
          inv = inv₃;
        },
      )

  abbrev enter : AnyValueType → ℕ → Cache → Cache
  enter t a c = (key_of t a, false) ∷ c

  find-enter_other :
      (t : AnyValueType) (a : ℕ) (k : CacheKey) (c : Cache)
      → key_eq same (key_of t a) k ≡ false
      → find same k (enter t a c) ≡ find same k c
  unfolding find
  find-enter_other t a k c h = rw h

  find-enter_self :
      (t : AnyValueType) (a : ℕ) (c : Cache) → find same (key_of t a) (enter t a c) ≡ some false
  unfolding find
  find-enter_self t a c = rw (key_eq_refl same sound reflexive (key_of t a))

  -- The body of the loop, where a key is new.
  abbrev TakesTurns : AnyValueType → (ℕ → Cache → Result Cache) → Type 0
  TakesTurns t body =
      (a : ℕ) (c : Cache)
      → find same (key_of t a) c ≡ some false
      → Inv (weight t) c
      → (c' : Cache) × (body a c ≡ ok c') × Turn t a c c'

  record Step (t : AnyValueType) (a w : ℕ) (c c' : Cache) : Type 0 where
    ext : Extends (suc (weight t)) c c'
    inv : Inv w c'
    answer : find same (key_of t a) c' ≡ some (dense t a)

  enter-Kept :
      (t : AnyValueType) (a : ℕ) (c : Cache)
      → find same (key_of t a) c ≡ none
      → (k : CacheKey) (b : Bool) → find same k c ≡ some b
      → find same k (enter t a c) ≡ some b
  enter-Kept t a c absent k b h = find-enter_other t a k c (other_of_found t a k b c absent h) ∙ h

  enter-Inv :
      (t : AnyValueType) (a w : ℕ) (c : Cache)
      → weight t < w
      → find same (key_of t a) c ≡ none
      → Inv w c
      → Inv (weight t) (enter t a c)
  enter-Inv t a w c lt absent inv k b h g =
      let (right, p) =
        inv k b (omega arith) (sym (find-enter_other t a k c (other_of_lt t a k h)) ∙ g) in
      (
        right,
        Parts-mono k.value_type (weight t) c (enter t a c)
            (λ k' b' _ g'. enter-Kept t a c absent k' b' g') (omega arith) p,
      )

  same_entry :
      (t : AnyValueType) (a : ℕ) (c c' : Cache) (k : CacheKey) (b : Bool)
      → Turn t a c c'
      → key_of t a ≡ k
      → find same k c' ≡ some b
      → (b ≡ dense k.value_type k.align) × Parts same c' k.value_type
  same_entry t a c c' k b turn e =
      subst
        (λ (x : CacheKey).
          find same x c' ≡ some b → (b ≡ dense x.value_type x.align) × Parts same c' x.value_type)
        e (λ g. (cc (turn.answer), turn.parts))

  new-Step :
      (t : AnyValueType) (a w : ℕ) (c c' : Cache)
      → weight t < w
      → find same (key_of t a) c ≡ none
      → Inv w c
      → Turn t a (enter t a c) c'
      → Step t a w c c'
  new-Step t a w c c' lt absent inv turn = record {
    ext = record {
      kept = kept_all;
      added = λ k b h. elim (Bool-cases (key_eq same (key_of t a) k)) [
        | inl e ↦
            let same_weight : weight t ≡ weight k.value_type =
              ap (λ (x : CacheKey). weight x.value_type)
                (key_eq→eq same sound reflexive (key_of t a) k e) in
            inr (omega arith)
        | inr other ↦ elim (turn.added k b other h) [
          | inl o ↦ inl (sym (find-enter_other t a k c other) ∙ o)
          | inr l ↦ inr (omega arith)
        ]
      ];
    };
    inv = λ k b l h. elim (Bool-cases (key_eq same (key_of t a) k)) [
      | inl e ↦
          same_entry t a (enter t a c) c' k b turn (key_eq→eq same sound reflexive (key_of t a) k e)
            h
      | inr other ↦ elim (turn.added k b other h) [
        | inr l' ↦ turn.inv k b l' h
        | inl o ↦
            let (right, p) = inv k b l (sym (find-enter_other t a k c other) ∙ o) in
            (right, Parts-mono k.value_type w c c' (λ k' b' _ g. kept_all k' b' g) (omega arith) p)
      ]
    ];
    answer = turn.answer;
  }
    where
      kept_all : (k : CacheKey) (b : Bool) → find same k c ≡ some b → find same k c' ≡ some b
      kept_all k b h =
          turn.kept k b (other_of_found t a k b c absent h) (enter-Kept t a c absent k b h)

  old-Step :
      (t : AnyValueType) (a w : ℕ) (c : Cache) (b : Bool)
      → weight t < w
      → find same (key_of t a) c ≡ some b
      → Inv w c
      → Step t a w c c
  old-Step t a w c b lt present inv = record {
    ext = Extends-refl (suc (weight t)) c;
    inv = inv;
    answer = present ∙ ap some (inv (key_of t a) b lt present).0;
  }

  -- The answers for a list of alignments.
  abbrev AnswersAt : AnyValueType → List ℕ → Cache → Type 0
  AnswersAt t [] c = Unit {0}
  AnswersAt t (a ∷ aligns) c = (find same (key_of t a) c ≡ some (dense t a)) × AnswersAt t aligns c

  register_aligns_lem :
      (t : AnyValueType) (body : ℕ → Cache → Result Cache)
      → TakesTurns t body
      → (aligns : List ℕ) (w : ℕ) (c : Cache) → weight t < w
      → Inv w c
      → (c' : Cache) × (register_aligns same t body aligns c ≡ ok c')
        × Extends (suc (weight t)) c c'
        × Inv w c'
        × AnswersAt t aligns c'
  unfolding register_aligns
  register_aligns_lem t body turns [] w c lt inv = (c, refl, Extends-refl _ c, inv, tt)
  register_aligns_lem t body turns (a ∷ aligns) w c lt inv =
      elim (Option-cases (find same (key_of t a) c)) [
        | inl absent ↦
            let (c₁, run, turn) =
              turns a (enter t a c) (find-enter_self t a c) (enter-Inv t a w c lt absent inv) in
            let step = new-Step t a w c c₁ lt absent inv turn in
            let (c', run', ext, inv', answers) =
              register_aligns_lem t body turns aligns w c₁ lt step.inv in
            (
              c',
              rw (absent, run) run',
              Extends-trans _ _ _ (omega arith) (omega arith) step.ext ext,
              inv',
              (ext.kept _ _ step.answer, answers),
            )
        | inr (b, present) ↦
            let step = old-Step t a w c b lt present inv in
            let (c', run', ext, inv', answers) =
              register_aligns_lem t body turns aligns w c lt inv in
            (c', rw present run', ext, inv', (ext.kept _ _ step.answer, answers))
      ]

  abbrev eight : List ℕ
  eight = 0 ∷ 1 ∷ 2 ∷ 3 ∷ 4 ∷ 5 ∷ 6 ∷ 7 ∷ []

  AnswersAt-Answers : (t : AnyValueType) (c : Cache) → AnswersAt t eight c → Answers same c t
  AnswersAt-Answers t c h zero below = h.0
  AnswersAt-Answers t c h (suc zero) below = h.1.0
  AnswersAt-Answers t c h (suc (suc zero)) below = h.1.1.0
  AnswersAt-Answers t c h (suc (suc (suc zero))) below = h.1.1.1.0
  AnswersAt-Answers t c h (suc (suc (suc (suc zero)))) below = h.1.1.1.1.0
  AnswersAt-Answers t c h (suc (suc (suc (suc (suc zero))))) below = h.1.1.1.1.1.0
  AnswersAt-Answers t c h (suc (suc (suc (suc (suc (suc zero)))))) below = h.1.1.1.1.1.1.0
  AnswersAt-Answers t c h (suc (suc (suc (suc (suc (suc (suc zero))))))) below = h.1.1.1.1.1.1.1.0
  AnswersAt-Answers t c h (suc (suc (suc (suc (suc (suc (suc (suc a)))))))) below =
      absurd (omega arith)

  -- What registering `t` does, below any weight that is more than that of `t`.
  abbrev Registered : AnyValueType → (Cache → Result Cache) → Type 0
  Registered t run =
      (w : ℕ) (c : Cache)
      → weight t < w
      → Inv w c
      → (c' : Cache) × (run c ≡ ok c') × Extends (suc (weight t)) c c' × Inv w c' × Covers same c' t

  from_turns :
      (t : AnyValueType) (body : ℕ → Cache → Result Cache)
      → TakesTurns t body
      → Registered t (register_aligns same t body eight)
  from_turns t body turns w c lt inv =
      let (c', run, ext, inv', answers) = register_aligns_lem t body turns eight w c lt inv in
      (
        c',
        run,
        ext,
        inv',
        (AnswersAt-Answers t c' answers, (inv' (key_of t 0) (dense t 0) lt answers.0).1),
      )

  no_parts : (t : AnyValueType) → ((c : Cache) → Parts same c t) → Registers t (λ c. ok c)
  no_parts t parts c inv = (c, refl, Extends-refl (weight t) c, inv, parts c)

  from_leaf :
      (t : AnyValueType) (r : ℕ → Bool)
      → ((c : Cache) → Parts same c t)
      → ((a : ℕ) → r a ≡ dense t a)
      → Registered t (register_aligns same t (λ a c. ok (set t a (r a) c)) eight)
  from_leaf t r parts e =
      from_turns t (λ a c. ok (set t a (r a) c))
        (λ a c entered inv.
          Turn-set_last t (λ x. ok x) (no_parts t parts) a (r a) false c (e a) entered inv)

  one_part :
      (t element : AnyValueType) (run : Cache → Result Cache)
      → weight element < weight t
      → ((c : Cache) → Covers same c element → Parts same c t)
      → Registered element run
      → Registers t run
  one_part t element run lt parts reg c inv =
      let (c', e, ext, inv', covers) = reg (weight t) c lt inv in
      (
        c',
        e,
        Extends-trans (suc (weight element)) 0 (weight t) (omega arith) (omega arith) ext
            (Extends-refl 0 c'),
        inv',
        parts c' covers,
      )

  mutual
    unfolding register_serializable_type register_members weight weight_members Parts CoversMembers
        dense

    register-Registered : (t : AnyValueType) → Registered t (register_serializable_type same t)
    register-Registered (primitive_value_type k) =
        from_leaf (primitive_value_type k) _ (λ c. tt) (is_trivially_serialized-dense k)
    register-Registered (u8_string_value_type size bound) =
        from_leaf (u8_string_value_type size bound) (λ a. false) (λ c. tt) (λ a. refl)
    register-Registered (u16_string_value_type size bound) =
        from_leaf (u16_string_value_type size bound) (λ a. false) (λ c. tt) (λ a. refl)
    register-Registered (struct_value_type size members) =
        from_turns (struct_value_type size members) _ (λ a c entered inv.
          rw (compute_trivially_serialized-dense (struct_value_type size members) a) (
            Turn-set_last (struct_value_type size members) (register_members same members)
              (λ c₁ inv₁.
                register_members-Registered members (suc (weight_members members)) c₁ (omega arith)
                  inv₁)
              a _ false c refl entered inv))
    register-Registered (array_value_type element n) =
        from_turns (array_value_type element n) _ (λ a c entered inv.
          rw (compute_trivially_serialized-dense (array_value_type element n) a) (
            Turn-set_first (array_value_type element n) (register_serializable_type same element)
              (one_part (array_value_type element n) element _ (omega arith) (λ c' h. h)
                (register-Registered element))
              a _ false c refl entered inv))
    register-Registered (span_sequence_value_type size element bound) =
        from_turns (span_sequence_value_type size element bound) _ (λ a c entered inv.
          Turn-set_last (span_sequence_value_type size element bound)
            (register_serializable_type same element)
            (one_part (span_sequence_value_type size element bound) element _ (omega arith)
              (λ c' h. h) (register-Registered element))
            a false false c refl entered inv)
    register-Registered (bool_vector_value_type size bound) =
        from_leaf (bool_vector_value_type size bound) (λ a. false) (λ c. tt) (λ a. refl)

    register_members-Registered :
        (ms : Members) (w : ℕ) (c : Cache)
        → weight_members ms < w
        → Inv w c
        → (c' : Cache) × (register_members same ms c ≡ ok c')
          × Extends (suc (weight_members ms)) c c'
          × Inv w c'
          × CoversMembers same c' ms
    register_members-Registered end w c lt inv = (c, refl, Extends-refl _ c, inv, tt)
    register_members-Registered (member vt offset is_key rest) w c lt inv =
        let (c₁, run, ext, inv₁, covers) = register-Registered vt w c (omega arith) inv in
        let (c', run', ext', inv', covers') =
          register_members-Registered rest w c₁ (omega arith) inv₁ in
        let kept = λ (k : CacheKey) (b : Bool) (l : weight k.value_type < w). ext'.kept k b in
        (
          c',
          rw run run',
          Extends-trans _ _ _ (omega arith) (omega arith) ext ext',
          inv',
          (
            (
              Answers-mono w c₁ c' vt kept (omega arith) covers.0,
              Parts-mono vt w c₁ c' kept (omega arith) covers.1,
            ),
            covers',
          ),
        )

  empty-Inv : (w : ℕ) → Inv w []
  unfolding find
  empty-Inv w k b l h = cc

  -- The constructor of the cache throws nothing, and the cache has the answers of
  -- `compute_trivially_serialized` for the type and all types below it, at each alignment.
  pub make_cache-Covers :
      (t : AnyValueType) → (c : Cache) × (make_cache same t ≡ ok c) × Covers same c t
  unfolding make_cache
  make_cache-Covers t =
      let (c, run, ext, inv, covers) =
        register-Registered t (suc (weight t)) [] (omega arith) (empty-Inv (suc (weight t))) in
      (c, run, covers)
