-- ===== src/Retry/Samples.antt =====
-- A first LLM that is not in time and a second that answers.
use model_weaver.Base.{String, true, ◌==◌, if◌then◌else◌, some, text_eq}
use model_weaver.Retry.{Llm, responded, late, Pool, resilient_chat}
use model_weaver.Retry.Bounds.{Honest, resilient_chat-Honest}

abbrev slow : Llm
slow = record { provider = "groq"; model = "llama" }

abbrev quick : Llm
quick = record { provider = "ollama"; model = "qwen" }

abbrev two_llms : Pool Unit String
two_llms = record {
  chat = λ w llm timeout. (if llm.provider == "groq" then late else responded "hello", w);
  assign_llm = λ w excluded. (some quick, w);
  timeout_text = λ llm. "late";
}

resilient_chat-Honest_example : Honest 3 (resilient_chat two_llms 60 true 3 slow tt)
resilient_chat-Honest_example = resilient_chat-Honest two_llms 60 true 3 slow tt
