-- ===== src/Adapters/Plain.antt =====
-- The adapters of Ollama, Gemini and Bedrock, which pass on texts only.
use Prim.Native.String.{◌++◌ as append}
use llm_sentinel.Prelude.{
  ℕ, ◌≡◌, refl, String, Bool, true, List, [], ◌∷◌, ◌++◌, Option, none, some, ◌==◌, string_eq,
  if◌then◌else◌,
}
use llm_sentinel.Guardrails.Request.{or_default}
use llm_sentinel.Proxy.Tokens.{Content, Message, is_system}
use llm_sentinel.Adapters.Base.{
  OaiChatResponse, Chunk, make_oai_response, role_chunk, content_chunk, finish_chunk,
}
use llm_sentinel.Adapters.Anthropic.{system_of}

-- A line of Ollama's stream: blank, no JSON, or a content, "" where it has none, and whether it is
-- the last.
data Line : Type 0 where
  blank not_json : Line
  message_line : String → Bool → Line

-- The lines up to the one that says that the answer is done.
unfoldable ollama_lines : String → String → List Line → List Chunk
ollama_lines model chunk_id [] = []
ollama_lines model chunk_id (blank ∷ ls) = ollama_lines model chunk_id ls
ollama_lines model chunk_id (not_json ∷ ls) = ollama_lines model chunk_id ls
ollama_lines model chunk_id (message_line content done ∷ ls) =
    let rest = ollama_lines model chunk_id ls in
    let behind = if done then [] else rest in
    if content == "" then behind else content_chunk content model chunk_id ∷ behind

-- The texts of a stream between its first and its last chunk.
abbrev between : String → String → List Chunk → List Chunk
between model chunk_id chunks =
    role_chunk model chunk_id ∷ (chunks ++ (finish_chunk "stop" model chunk_id ∷ []))

unfoldable ollama_stream : String → String → List Line → List Chunk
unfolding ollama_lines
ollama_stream model chunk_id ls = between model chunk_id (ollama_lines model chunk_id ls)

-- The answer of Ollama, with counts that it may leave out.
unfoldable ollama_answer :
    String → ℕ → String → Option String → Option ℕ → Option ℕ → OaiChatResponse
unfolding make_oai_response
ollama_answer id created model content prompt_eval_count eval_count =
    make_oai_response id created (or_default "" content) model (or_default 0 prompt_eval_count)
      (or_default 0 eval_count) "stop" none

-- The contents of Gemini: the role is that of the model or of the user.
record GeminiContent : Type 0 where
  pub role : String
  pub text : Content

abbrev gemini_content : Message → GeminiContent
gemini_content m = record {
  role = if or_default "user" m.role == "assistant" then "model" else "user";
  text = m.content;
}

-- `_convert_messages`, over what it has so far.
unfoldable convert_onto :
    Option Content → List GeminiContent → List Message → Option Content × List GeminiContent
convert_onto system contents [] = (system, contents)
convert_onto system contents (m ∷ ms) =
    convert_onto (if is_system m then some m.content else system)
      (if is_system m then contents else contents ++ (gemini_content m ∷ [])) ms

-- The contents and `config`, whose fields are none where it has no such key.
record GeminiParams : Type 0 where
  pub contents : List GeminiContent
  pub temperature : Option String
  pub max_output_tokens : Option ℕ
  pub system_instruction : Option Content

unfoldable gemini_params : List Message → Option String → Option ℕ → GeminiParams
unfolding convert_onto
gemini_params messages temperature max_tokens =
    let (system, contents) = convert_onto none [] messages in
    record {
      contents = contents;
      temperature = temperature;
      max_output_tokens = max_tokens;
      system_instruction = system_of system;
    }

unfoldable gemini_answer : String → ℕ → String → Option String → Option (ℕ × ℕ) → OaiChatResponse
unfolding make_oai_response
gemini_answer id created model text usage = elim usage [
  | none ↦ make_oai_response id created (or_default "" text) model 0 0 "stop" none
  | some (prompt, candidates) ↦
      make_oai_response id created (or_default "" text) model prompt candidates "stop" none
]

-- The chunks of Gemini; None and the empty text are passed over.
unfoldable gemini_chunks : String → String → List (Option String) → List Chunk
gemini_chunks model chunk_id [] = []
gemini_chunks model chunk_id (t ∷ ts) =
    let rest = gemini_chunks model chunk_id ts in
    if or_default "" t == "" then rest else content_chunk (or_default "" t) model chunk_id ∷ rest

unfoldable gemini_stream : String → String → List (Option String) → List Chunk
unfolding gemini_chunks
gemini_stream model chunk_id ts = between model chunk_id (gemini_chunks model chunk_id ts)

-- The blocks of an answer of Bedrock: a text, or another type.
unfoldable bedrock_text : String → List (Option String) → String
bedrock_text content [] = content
bedrock_text content (none ∷ bs) = bedrock_text content bs
bedrock_text content (some t ∷ bs) = bedrock_text (append content t) bs

unfoldable bedrock_answer : String → ℕ → String → List (Option String) → ℕ → ℕ → OaiChatResponse
unfolding make_oai_response bedrock_text
bedrock_answer id created model blocks input_tokens output_tokens =
    make_oai_response id created (bedrock_text "" blocks) model input_tokens output_tokens "stop"
      none

-- The events of a stream of Bedrock: a text delta, or another event.
unfoldable bedrock_chunks : String → String → List (Option String) → List Chunk
bedrock_chunks model chunk_id [] = []
bedrock_chunks model chunk_id (none ∷ es) = bedrock_chunks model chunk_id es
bedrock_chunks model chunk_id (some t ∷ es) =
    content_chunk t model chunk_id ∷ bedrock_chunks model chunk_id es

unfoldable bedrock_stream : String → String → List (Option String) → List Chunk
unfolding bedrock_chunks
bedrock_stream model chunk_id es = between model chunk_id (bedrock_chunks model chunk_id es)

-- Lines behind the one that ends the answer change nothing.
ollama_stream-done :
    (model chunk_id content : String) (ls ms : List Line)
    → ollama_lines model chunk_id (message_line content true ∷ ls)
      ≡ ollama_lines model chunk_id (message_line content true ∷ ms)
unfolding ollama_lines
ollama_stream-done model chunk_id content ls ms = refl
