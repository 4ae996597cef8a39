-- ===== src/Allocation/Served.antt =====
-- Whoever is allocated is available.
use model_weaver.Base.{
  String, Bool, true, false, Option, none, some, List, [], ◌∷◌, ◌≡◌, refl, contains, text_eq,
  Bool-cases, Option-cases, inl, inr, eq_refl, arith, subst,
}
use model_weaver.Fsm.Value.{nonempty}
use model_weaver.Allocation.{
  Managers, Preference, Allocation, Recommendation, all_available, provider_available, pick_model,
  first_recommended, least, recommend_any, recommend, with_model, refused, assigned,
  allocate_preferred, allocate_first, allocate,
}

module _ (m : Managers) where
  -- The allocation gives an available provider and a model, or none was made.
  pub record Served (a : Allocation) : Type 0 where
    pub provider_in :
        a.allocated ≡ true
        → (p : String) × (model : String) × (a.provider_ref ≡ some p)
          × (a.model_ref ≡ some model)
          × (contains (all_available m) p ≡ true)

  Served-refused :
      (reason : String) (provider model source : Option String)
      → Served (refused m reason provider model source)
  Served-refused reason provider model source = record { provider_in = λ e. absurd cc }

  Served-assigned :
      (source reason provider model : String)
      → contains (all_available m) provider ≡ true
      → Served (assigned m source reason provider model)
  Served-assigned source reason provider model c = record {
    provider_in = λ e. (provider, model, refl, refl, c);
  }

  -- A recommendation of an available provider, if there is one.
  record Available (o : Option Recommendation) : Type 0 where
    of : (r : Recommendation) → o ≡ some r → contains (all_available m) r.provider ≡ true

  Available-none : Available none
  Available-none = record { of = λ r e. absurd cc }

  Available-some :
      (r : Recommendation) → contains (all_available m) r.provider ≡ true → Available (some r)
  Available-some r c = record {
    of = λ s e.
        let q : r ≡ s = cc in
        subst (λ (x : Recommendation). contains (all_available m) x.provider ≡ true) q c;
  }

  first_recommended-Available : (recs : List Recommendation) → Available (first_recommended m recs)
  unfolding first_recommended
  first_recommended-Available [] = Available-none
  first_recommended-Available (r ∷ recs) =
      elim (Bool-cases (contains (all_available m) r.provider)) [
        | inl there ↦ simp there (Available-some r there)
        | inr absent ↦ simp absent (first_recommended-Available recs)
      ]

  -- The least of a list is one of its members.
  least-among : (p : String) (ps : List String) → contains (p ∷ ps) (least m p ps) ≡ true
  unfolding least
  least-among p [] = ground (arith, eq_refl p)
  least-among p (q ∷ ps) = elim (Bool-cases (m.before q p)) [
    | inl less ↦ simp less (ground (arith, least-among q ps))
    | inr more ↦ simp more (ground (arith, least-among p ps))
  ]

  with_model-Available :
      (provider reason : String) (model : Option String)
      → contains (all_available m) provider ≡ true
      → Available (with_model m provider reason model)
  with_model-Available provider reason none c = Available-none
  with_model-Available provider reason (some model) c = Available-some _ c

  allocate_first-Served :
      (use_case : String) (ps : List String)
      → ((p : String) → contains ps p ≡ true → contains (all_available m) p ≡ true)
      → Served (allocate_first m use_case ps)
  unfolding allocate_first
  allocate_first-Served use_case [] inside = Served-refused _ _ _ _
  allocate_first-Served use_case (p ∷ ps) inside =
      elim (Option-cases (nonempty (pick_model m p use_case))) [
        | inl nothing ↦ simp (nothing, allocate_first) (Served-refused _ _ _ _)
        | inr (model, found) ↦
            simp (found, allocate_first)
              (Served-assigned _ _ p model (inside p (ground (arith, eq_refl p))))
      ]

  recommend_any-Available :
      (use_case : String) (ps : List String)
      → ((p : String) → contains ps p ≡ true → contains (all_available m) p ≡ true)
      → Available (recommend_any m use_case ps)
  recommend_any-Available use_case [] inside = Available-none
  recommend_any-Available use_case (p ∷ ps) inside =
      with_model-Available _ _ (nonempty (pick_model m (least m p ps) use_case))
        (inside (least m p ps) (least-among p ps))

  recommend-Available :
      (use_case : String) (level : Option String) → Available (recommend m use_case level)
  unfolding recommend
  recommend-Available use_case level = pick _ (first_recommended-Available _)
    where
      pick :
          (o : Option Recommendation)
          → Available o
          → Available
              (elim o [ some r ↦ some r | none ↦ recommend_any m use_case (all_available m) ])
      pick (some r) h = h
      pick none h = recommend_any-Available use_case (all_available m) (λ p c. c)

  allocate_preferred-Served :
      (provider use_case : String) → Served (allocate_preferred m provider use_case)
  unfolding allocate_preferred
  allocate_preferred-Served provider use_case = elim (Bool-cases (provider_available m provider)) [
    | inr absent ↦ simp (absent, allocate_preferred) (Served-refused _ _ _ _)
    | inl there ↦ elim (Option-cases (nonempty (pick_model m provider use_case))) [
      | inl nothing ↦ simp (there, nothing, allocate_preferred) (Served-refused _ _ _ _)
      | inr (model, found) ↦
          simp (there, found, allocate_preferred)
            (Served-assigned _ _ provider model (unfold provider_available in there))
    ]
  ]

  allocate-Served : (needs_llm : Bool) (pref : Preference) → Served (allocate m needs_llm pref)
  unfolding allocate
  allocate-Served false pref = Served-refused _ _ _ _
  allocate-Served true pref = elim (Option-cases (nonempty pref.provider)) [
    | inl unset ↦ elim (Option-cases (recommend m pref.use_case pref.level)) [
      | inl nothing ↦
          simp (unset, nothing, allocate)
            (allocate_first-Served pref.use_case (all_available m) (λ p c. c))
      | inr (r, found) ↦
          simp (unset, found, allocate)
            (Served-assigned _ _ r.provider r.model
              ((recommend-Available pref.use_case pref.level).of r found))
    ]
    | inr (provider, given) ↦ elim (Option-cases (nonempty pref.model)) [
      | inl free ↦ simp (given, free, allocate) (allocate_preferred-Served provider pref.use_case)
      | inr (model, fixed) ↦ elim (Bool-cases (provider_available m provider)) [
        | inl there ↦
            simp (given, fixed, there, allocate)
              (Served-assigned _ _ provider model (unfold provider_available in there))
        | inr absent ↦ simp (given, fixed, absent, allocate) (Served-refused _ _ _ _)
      ]
    ]
  ]

  -- An agent that is allocated an LLM is given one of a provider that is onboarded or runs
  -- locally, whether it asked for one, a recommendation was followed or the last resort taken.
  pub allocate-available :
      (needs_llm : Bool) (pref : Preference)
      → (allocate m needs_llm pref).allocated ≡ true
      → (p : String) × (model : String) × ((allocate m needs_llm pref).provider_ref ≡ some p)
        × ((allocate m needs_llm pref).model_ref ≡ some model)
        × (contains (all_available m) p ≡ true)
  allocate-available needs_llm pref = (allocate-Served needs_llm pref).provider_in
