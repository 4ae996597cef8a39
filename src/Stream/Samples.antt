-- ===== src/Stream/Samples.antt =====
-- A bus of buffers with one chunk.
use model_weaver.Base.{◌+◌, [], ◌∷◌, ◌≡◌, arith}
use model_weaver.Stream.{StreamBus, empty_bus, publish_chunk, since}
use model_weaver.Stream.Reads.{IsBus, publish_chunk-IsBus, since-publish_chunk}

abbrev small_bus : StreamBus
small_bus = publish_chunk (empty_bus 1) 10 7 "Hel" "token"

empty_bus-IsBus : IsBus (empty_bus 1)
empty_bus-IsBus = record { buffers = tt }

publish_chunk-IsBus_example : IsBus small_bus
publish_chunk-IsBus_example = publish_chunk-IsBus (empty_bus 1) 10 7 "Hel" "token" empty_bus-IsBus

small_bus-IsBus : IsBus small_bus
small_bus-IsBus = publish_chunk-IsBus (empty_bus 1) 10 7 "Hel" "token" empty_bus-IsBus

since-publish_chunk_example :
    since (publish_chunk small_bus 11 7 "lo" "token") 7 small_bus.seq
    ≡ record { seq = small_bus.seq + 1; ts = 11; chunk = "lo"; kind = "token" } ∷ []
since-publish_chunk_example =
    since-publish_chunk small_bus 11 7 "lo" "token" small_bus-IsBus
      (unfold publish_chunk in omega arith)
