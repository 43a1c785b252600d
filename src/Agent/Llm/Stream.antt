-- ===== src/Agent/Llm/Stream.antt =====
-- agent/gemini_agent.py: the chunks in which an answer is streamed.
-- A stream is what was yielded until it ended or raised.
pub mod Chunks
use wso2_teamspace_demo.Base.{
  ℕ, zero, suc, String, ◌<>◌, Bool, true, false, Option, none, some, List, [], ◌∷◌, ◌++◌, nonempty,
  if◌then◌else◌,
}
use wso2_teamspace_demo.Base.Json.{Json, Fields}
use wso2_teamspace_demo.Base.Run.{Result, ok, err, Run}
use wso2_teamspace_demo.Base.Slices.{take_chars, drop_chars, char_count}
use wso2_teamspace_demo.Agent.Llm.Turns.{
  Part, function_call, text, unexpected, Content, Response, first_parts, append_tool_call_messages,
}

-- `_stream_text_in_chunks`: `text[i:i+size]` for `i` in `range(0, len(text), size)`. The fuel bounds the
-- number of chunks; the length of the text is enough.
unfoldable pub chunks_in : ℕ → ℕ → String → List String
chunks_in zero size s = []
chunks_in (suc fuel) size s =
    let later = chunks_in fuel size (drop_chars size s) in
    if nonempty s then take_chars size s ∷ later else []

abbrev pub stream_text_in_chunks : String → List String
stream_text_in_chunks s = chunks_in (char_count s) 5 s

-- What `_consume_stream_for_text_and_fn` yields: the texts before the first call, and the call.
unfoldable pub consume_parts : List Part → List String × Option (String × Fields)
consume_parts [] = ([], none)
consume_parts (function_call name args ∷ parts) = ([], some (name, args))
consume_parts (text s ∷ parts) =
    let (texts, called) = consume_parts parts in ((if nonempty s then s ∷ texts else texts), called)
consume_parts (unexpected ∷ parts) = consume_parts parts

unfoldable pub consume_stream : List Response → List String × Option (String × Fields)
consume_stream [] = ([], none)
consume_stream (chunk ∷ chunks) =
    let (texts, called) = consume_parts (first_parts chunk) in
    let (later, later_called) = consume_stream chunks in
    elim called [ some call ↦ (texts, some call) | none ↦ (texts ++ later, later_called) ]

-- What a generator yielded, how it ended, and the world then.
abbrev pub Streaming : Type 0 → Type 0
Streaming W = W → List String × Result (Unit {0}) × W

module _ {W : Type 0}
    (generate_content_stream : List Content → Run W (List Response × Result (Unit {0})))
    (dispatch_tool : String → Fields → String → Run W Json) where
  -- The `for` loop of `run_agent_stream`, with the iterations that are left. A response stream is its
  -- chunks and how it ends, which is not seen behind a call.
  unfoldable pub stream_loop : ℕ → List Content → String → Streaming W
  stream_loop zero messages thread w = ([], ok tt, w)
  stream_loop (suc n) messages thread w =
      let (response, w₁) = generate_content_stream messages w in
      elim response [
        | err e ↦ ([], err e, w₁)
        | ok (chunks, ending) ↦
            let (texts, called) = consume_stream chunks in
            elim called [
              | none ↦ (texts, ending, w₁)
              | some (name, args) ↦
                  let (result, w₂) = dispatch_tool name args thread w₁ in
                  elim result [
                    | err e ↦ (texts, err e, w₂)
                    | ok v ↦
                        let (later, ended, w₃) =
                          stream_loop n (append_tool_call_messages messages name args v) thread
                            w₂ in
                        (texts ++ later, ended, w₃)
                  ]
            ]
      ]
