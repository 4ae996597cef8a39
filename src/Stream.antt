-- ===== src/Stream.antt =====
-- AgentFrameWork/stream_bus.py: StreamBus, the bounded buffers of chunks in memory.
pub mod Reads
mod Samples
use model_weaver.Base.{
  ℕ, suc, ◌+◌, ◌-◌, String, Option, none, some, List, [], ◌∷◌, ◌++◌, length, drop, select, ltb,
  if◌then◌else◌, nat_eq,
}
use model_weaver.Base.Dict
use model_weaver.Base.Dict.{Dict}

pub record Chunk : Type 0 where
  pub seq : ℕ
  pub ts : ℕ
  pub chunk : String
  pub kind : String

-- The state of a bus; the size of a buffer does not change.
pub record StreamBus : Type 0 where
  pub buffers : Dict ℕ (List Chunk)
  pub seq : ℕ
  pub max : ℕ

-- StreamBus.__init__
abbrev pub empty_bus : (max_per_agent : ℕ) → StreamBus
empty_bus max_per_agent = record { buffers = []; seq = 0; max = max_per_agent }

abbrev pub buffer_of : Option (List Chunk) → List Chunk
buffer_of none = []
buffer_of (some buf) = buf

-- The oldest chunks are deleted where there are more than `max`.
unfoldable pub trim : (max : ℕ) → List Chunk → List Chunk
trim max buf = if ltb max (length buf) then drop (length buf - max) buf else buf

-- StreamBus.publish, at the time `now`; the answer is `seq` of the new bus
unfoldable pub publish_chunk : StreamBus → (now agent_id : ℕ) (chunk kind : String) → StreamBus
unfolding trim
publish_chunk bus now agent_id chunk kind =
    let seq = bus.seq + 1 in
    let buf =
      buffer_of (Dict.lookup bus.buffers agent_id)
      ++ record { seq = seq; ts = now; chunk = chunk; kind = kind } ∷ [] in
    record bus { seq = seq; buffers = Dict.insert bus.buffers agent_id (trim bus.max buf) }

-- StreamBus.since
unfoldable pub since : StreamBus → (agent_id seq : ℕ) → List Chunk
since bus agent_id seq =
    select (λ (e : Chunk). ltb seq e.seq) (buffer_of (Dict.lookup bus.buffers agent_id))

-- StreamBus.reset
unfoldable pub reset : StreamBus → (agent_id : ℕ) → StreamBus
reset bus agent_id = record bus { buffers = Dict.remove bus.buffers agent_id }
