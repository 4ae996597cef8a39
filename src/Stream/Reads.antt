-- ===== src/Stream/Reads.antt =====
-- What a reader of the bus gets, and how large a buffer becomes.
use model_weaver.Base.{
  ℕ, zero, suc, ◌+◌, ◌-◌, ◌≤◌, ◌<◌, String, List, [], ◌∷◌, ◌++◌, ◌≡◌, refl, arith, length, drop,
  select, ltb, nat_eq, All, All-append, All-drop, length-append, length-drop, Bool-cases, inl, inr,
  Option-cases,
}
use model_weaver.Base.Dict
use model_weaver.Base.Dict.{Dict, lookup-AllValues, insert-AllValues, lookup-insert_self}
use model_weaver.Stream.{Chunk, StreamBus, buffer_of, trim, publish_chunk, since}

-- A buffer of at most `max` chunks, none of which is newer than `seq`.
abbrev pub IsBuffer : (max seq : ℕ) → List Chunk → Type 0
IsBuffer max seq buf = (length buf ≤ max) × All (λ (c : Chunk). c.seq ≤ seq) buf

pub record IsBus (bus : StreamBus) : Type 0 where
  pub buffers : Dict.AllValues (IsBuffer bus.max bus.seq) bus.buffers

All-later :
    (m n : ℕ) (buf : List Chunk)
    → m ≤ n
    → All (λ (c : Chunk). c.seq ≤ m) buf
    → All (λ (c : Chunk). c.seq ≤ n) buf
All-later m n [] l h = tt
All-later m n (c ∷ buf) l h = (omega (arith, h.0), All-later m n buf l h.1)

buffers-later :
    (max m n : ℕ) (d : Dict ℕ (List Chunk))
    → m ≤ n
    → Dict.AllValues (IsBuffer max m) d
    → Dict.AllValues (IsBuffer max n) d
buffers-later max m n [] l h = tt
buffers-later max m n ((k, buf) ∷ d) l h =
    ((h.0.0, All-later m n buf l h.0.1), buffers-later max m n d l h.1)

trim-length : (max : ℕ) (buf : List Chunk) → length (trim max buf) ≤ max
unfolding trim
trim-length max buf = elim (Bool-cases (ltb max (length buf))) [
  | inl over ↦ simp over (omega (arith, length-drop (length buf - max) buf))
  | inr fits ↦ simp fits (ground (arith, fits))
]

trim-All : (P : Chunk → Type 0) (max : ℕ) (buf : List Chunk) → All P buf → All P (trim max buf)
unfolding trim
trim-All P max buf h = elim (Bool-cases (ltb max (length buf))) [
  | inl over ↦ simp over (All-drop P (length buf - max) buf h)
  | inr fits ↦ simp fits h
]

buffer_of-IsBuffer :
    (max seq agent_id : ℕ) (d : Dict ℕ (List Chunk))
    → Dict.AllValues (IsBuffer max seq) d
    → IsBuffer max seq (buffer_of (Dict.lookup d agent_id))
buffer_of-IsBuffer max seq agent_id d h = elim (Option-cases (Dict.lookup d agent_id)) [
  | inl missing ↦ rw missing (omega arith, tt)
  | inr (buf, found) ↦ rw found (lookup-AllValues (IsBuffer max seq) d agent_id h found)
]

-- Publishing a chunk keeps every buffer within the size of the bus, and every number in it at or
-- below the number of the last chunk.
pub publish_chunk-IsBus :
    (bus : StreamBus) (now agent_id : ℕ) (chunk kind : String)
    → IsBus bus
    → IsBus (publish_chunk bus now agent_id chunk kind)
unfolding publish_chunk
publish_chunk-IsBus bus now agent_id chunk kind v = record {
  buffers =
      let own = buffer_of-IsBuffer bus.max bus.seq agent_id bus.buffers v.buffers in
      insert-AllValues (IsBuffer bus.max (bus.seq + 1)) bus.buffers agent_id _
        (buffers-later bus.max bus.seq (bus.seq + 1) bus.buffers (omega arith) v.buffers)
        (
          trim-length bus.max _,
          trim-All (λ (c : Chunk). c.seq ≤ bus.seq + 1) bus.max _
              (All-append (λ (c : Chunk). c.seq ≤ bus.seq + 1) _ _
                (All-later bus.seq (bus.seq + 1) _ (omega arith) own.1) (omega arith, tt)),
        );
}

drop-last :
    (n : ℕ) (xs : List Chunk) (c : Chunk)
    → n ≤ length xs
    → drop n (xs ++ c ∷ []) ≡ drop n xs ++ c ∷ []
drop-last zero xs c l = refl
drop-last (suc n) [] c l = absurd (omega (arith, l))
drop-last (suc n) (x ∷ xs) c l = drop-last n xs c (omega (arith, l))

-- Trimming behind a new chunk leaves the new chunk the last.
trim-last :
    (max : ℕ) (xs : List Chunk) (c : Chunk)
    → 0 < max
    → (ys : List Chunk) × (trim max (xs ++ c ∷ []) ≡ ys ++ c ∷ [])
      × ((P : Chunk → Type 0) → All P xs → All P ys)
unfolding trim
trim-last max xs c pos = elim (Bool-cases (ltb max (length (xs ++ c ∷ [])))) [
  | inr fits ↦ (xs, simp fits, λ P h. h)
  | inl over ↦
      let n = length (xs ++ c ∷ []) - max in
      (
        drop n xs,
        simp over (drop-last n xs c (omega (arith, length-append xs (c ∷ []), pos))),
        λ P h. All-drop P n xs h,
      )
]

only_newest :
    (seq : ℕ) (ys : List Chunk) (c : Chunk)
    → seq < c.seq
    → All (λ (e : Chunk). e.seq ≤ seq) ys
    → select (λ (e : Chunk). ltb seq e.seq) (ys ++ c ∷ []) ≡ c ∷ []
only_newest seq [] c l h = ground (arith, l)
only_newest seq (y ∷ ys) c l h = ground (arith, h.0, only_newest seq ys c l h.1)

-- An agent's reader that has read up to the last chunk of the bus gets exactly the next one that
-- is published for the agent, if a buffer holds any chunk at all.
pub since-publish_chunk :
    (bus : StreamBus) (now agent_id : ℕ) (chunk kind : String)
    → IsBus bus
    → 0 < bus.max
    → since (publish_chunk bus now agent_id chunk kind) agent_id bus.seq
      ≡ record { seq = bus.seq + 1; ts = now; chunk = chunk; kind = kind } ∷ []
unfolding since publish_chunk
since-publish_chunk bus now agent_id chunk kind v pos =
    let c : Chunk = record { seq = bus.seq + 1; ts = now; chunk = chunk; kind = kind } in
    let own = buffer_of-IsBuffer bus.max bus.seq agent_id bus.buffers v.buffers in
    let (ys, last, kept) = trim-last bus.max (buffer_of (Dict.lookup bus.buffers agent_id)) c pos in
    simp (last, lookup-insert_self bus.buffers agent_id (ys ++ c ∷ []))
      (only_newest bus.seq ys c (omega arith) (kept (λ (e : Chunk). e.seq ≤ bus.seq) own.1))
