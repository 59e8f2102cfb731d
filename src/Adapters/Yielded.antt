-- ===== src/Adapters/Yielded.antt =====
-- What a client collects from the chunks that the loop of the Anthropic adapter yields, event by event.
use Prim.Native.String.{◌++◌ as append}
use package.text.Mathlib.TextLemmas.{append-nil, append_assoc, nil-append}
use llm_sentinel.Prelude.{
  ◌≡◌, refl, sym, ap, ◌∙◌, subst, String, false, List, [], ◌∷◌, ◌++◌, some, arith, ◌==◌, string_eq,
  map, All,
}
use mathlib.Core.List.{append_assoc as append_assoc_list}
use llm_sentinel.Adapters.Collected.{
  Parts, text_parts, tool_parts, no_parts, whole, events_of, answer_events, text_of, calls_of,
  texts, sent_calls, Named, text_of-append, calls_of-append,
}
use llm_sentinel.Adapters.Base.{StreamedCall, Chunk}
use llm_sentinel.Adapters.Anthropic.{
  Event, tool_start, other_start, text_delta, input_json_delta, block_stop, Loop, on_event,
  on_events, stopped,
}

-- Between two blocks no call is open.
abbrev idle : String → Loop
idle finish_reason = record {
  current_tool_id = "";
  current_tool_name = "";
  tool_args_buffer = "";
  finish_reason = finish_reason;
}

abbrev in_tool : String → String → String → String → Loop
in_tool id name buffer finish_reason = record {
  current_tool_id = id;
  current_tool_name = name;
  tool_args_buffer = buffer;
  finish_reason = finish_reason;
}

abbrev pub finish_behind : String → List Parts → String
finish_behind finish_reason [] = finish_reason
finish_behind finish_reason (text_parts ts ∷ ps) = finish_behind finish_reason ps
finish_behind finish_reason (tool_parts id name ts ∷ ps) = finish_behind "tool_calls" ps
finish_behind finish_reason (no_parts ∷ ps) = finish_behind finish_reason ps

module _ (model chunk_id : String) where
  -- The events lead from one state of the loop to another, and a client collects this from them.
  pub record Yields (l : Loop) (es : List Event) (l' : Loop) (t : String) (cs : List StreamedCall)
      : Type 0 where
    pub state : (on_events model chunk_id l es).0 ≡ l'
    pub collected_text : text_of (on_events model chunk_id l es).1 ≡ t
    pub collected_calls : calls_of (on_events model chunk_id l es).1 ≡ cs

  on_events-append :
      (l : Loop) (es fs : List Event)
      → on_events model chunk_id l (es ++ fs) ≡ (
        (on_events model chunk_id (on_events model chunk_id l es).0 fs).0,
        (on_events model chunk_id l es).1
            ++ (on_events model chunk_id (on_events model chunk_id l es).0 fs).1,
      )
  unfolding on_events
  on_events-append l [] fs = refl
  on_events-append l (e ∷ es) fs =
      let (l', now) = on_event model chunk_id l e in
      let later = on_events model chunk_id l' es in
      let last = on_events model chunk_id later.0 fs in
      ap (λ (r : Loop × List Chunk). (r.0, now ++ r.1)) (on_events-append l' es fs)
      ∙ ap (λ (cs : List Chunk). (last.0, cs)) (sym (append_assoc_list now later.1 last.1))

  Yields-append :
      (l m n : Loop) (es fs : List Event) (t u : String) (cs ds : List StreamedCall)
      → Yields l es m t cs
      → Yields m fs n u ds
      → Yields l (es ++ fs) n (append t u) (cs ++ ds)
  Yields-append l m n es fs t u cs ds y z =
      let a = on_events model chunk_id l es in
      let both : on_events model chunk_id l (es ++ fs)
          ≡ ((on_events model chunk_id m fs).0, a.1 ++ (on_events model chunk_id m fs).1) =
        on_events-append l es fs
        ∙ ap
            (λ (k : Loop).
              ((on_events model chunk_id k fs).0, a.1 ++ (on_events model chunk_id k fs).1))
            y.state in
      let b = on_events model chunk_id m fs in
      record {
        state = ap (λ (r : Loop × List Chunk). r.0) both ∙ z.state;
        collected_text =
            ap (λ (r : Loop × List Chunk). text_of r.1) both
            ∙ text_of-append a.1 b.1
            ∙ ap (λ (v : String). append v (text_of b.1)) y.collected_text
            ∙ ap (append t) z.collected_text;
        collected_calls =
            ap (λ (r : Loop × List Chunk). calls_of r.1) both
            ∙ calls_of-append a.1 b.1
            ∙ ap (λ (v : List StreamedCall). v ++ calls_of b.1) y.collected_calls
            ∙ ap (λ (v : List StreamedCall). cs ++ v) z.collected_calls;
      }

  text_delta-Yields : (l : Loop) (ts : List String) → Yields l (map text_delta ts) l (whole ts) []
  unfolding on_events on_event
  text_delta-Yields l [] = record { state = refl; collected_text = refl; collected_calls = refl }
  text_delta-Yields l (t ∷ ts) =
      let y = text_delta-Yields l ts in
      record {
        state = y.state;
        collected_text = ap (append t) y.collected_text;
        collected_calls = y.collected_calls;
      }

  on_event-json :
      (id name buffer f t : String)
      → (id == "") ≡ false
      → on_event model chunk_id (in_tool id name buffer f) (input_json_delta t)
        ≡ (in_tool id name (append buffer t) f, [])
  unfolding on_event
  on_event-json id name buffer f t h = ground (arith, h)

  -- An event without chunks, and more events behind it.
  after_event :
      (l m n : Loop) (e : Event) (es : List Event) (t : String) (cs : List StreamedCall)
      → on_event model chunk_id l e ≡ (m, [])
      → Yields m es n t cs
      → Yields l (e ∷ es) n t cs
  unfolding on_events
  after_event l m n e es t cs first y =
      let run : Loop × List Chunk → Loop × List Chunk =
        λ r. ((on_events model chunk_id r.0 es).0, r.1 ++ (on_events model chunk_id r.0 es).1) in
      let same : on_events model chunk_id l (e ∷ es) ≡ on_events model chunk_id m es =
        ap run first in
      record {
        state = ap (λ (r : Loop × List Chunk). r.0) same ∙ y.state;
        collected_text = ap (λ (r : Loop × List Chunk). text_of r.1) same ∙ y.collected_text;
        collected_calls = ap (λ (r : Loop × List Chunk). calls_of r.1) same ∙ y.collected_calls;
      }

  json_delta-Yields :
      (id name buffer f : String) (ts : List String)
      → (id == "") ≡ false
      → Yields
          (in_tool id name buffer f)
          (map input_json_delta ts)
          (in_tool id name (append buffer (whole ts)) f)
          ""
          []
  unfolding on_events
  json_delta-Yields id name buffer f [] h = record {
    state = ap (λ (b : String). in_tool id name b f) (sym (append-nil buffer));
    collected_text = refl;
    collected_calls = refl;
  }
  json_delta-Yields id name buffer f (t ∷ ts) h =
      subst
        (λ (b : String).
          Yields (in_tool id name buffer f) (map input_json_delta (t ∷ ts)) (in_tool id name b f) ""
            [])
        (append_assoc buffer t (whole ts))
        (after_event (in_tool id name buffer f) (in_tool id name (append buffer t) f)
          (in_tool id name (append (append buffer t) (whole ts)) f) (input_json_delta t)
          (map input_json_delta ts) "" [] (on_event-json id name buffer f t h)
          (json_delta-Yields id name (append buffer t) f ts h))

  -- The end of a block that no call of a tool is open in, and of one that is.
  stop-Yields : (f : String) → Yields (idle f) (block_stop ∷ []) (idle f) "" []
  unfolding on_events on_event
  stop-Yields f = record { state = refl; collected_text = refl; collected_calls = refl }

  tool_stop-Yields :
      (id name buffer f : String)
      → (id == "") ≡ false
      → Yields
          (in_tool id name buffer f)
          (block_stop ∷ [])
          (idle "tool_calls")
          ""
          (record { index = 0; call = record { id = id; name = name; arguments = buffer } } ∷ [])
  unfolding on_events on_event
  tool_stop-Yields id name buffer f h = record {
    state = ground (arith, h);
    collected_text = ground (arith, h, nil-append "");
    collected_calls = ground (arith, h);
  }

  block-Yields :
      (f : String) (p : Parts)
      → Named p
      → Yields
          (idle f)
          (events_of p)
          (idle (finish_behind f (p ∷ [])))
          (texts (p ∷ []))
          (sent_calls (p ∷ []))
  unfolding on_event
  block-Yields f (text_parts ts) h =
      after_event (idle f) (idle f) (idle f) other_start (map text_delta ts ++ (block_stop ∷ []))
        (append (whole ts) "") [] refl
        (Yields-append (idle f) (idle f) (idle f) (map text_delta ts) (block_stop ∷ []) (whole ts)
          "" [] [] (text_delta-Yields (idle f) ts) (stop-Yields f))
  block-Yields f (tool_parts id name ts) h =
      after_event (idle f) (in_tool id name "" f) (idle "tool_calls") (tool_start id name)
        (map input_json_delta ts ++ (block_stop ∷ [])) "" _ refl
        (Yields-append (in_tool id name "" f) (in_tool id name (append "" (whole ts)) f)
          (idle "tool_calls") (map input_json_delta ts) (block_stop ∷ []) "" "" [] _
          (json_delta-Yields id name "" f ts h)
          (subst
            (λ (b : String).
              Yields (in_tool id name (append "" (whole ts)) f) (block_stop ∷ [])
                (idle "tool_calls") ""
                (record { index = 0; call = record { id = id; name = name; arguments = b } } ∷ []))
            (nil-append (whole ts)) (tool_stop-Yields id name (append "" (whole ts)) f h)))
  block-Yields f no_parts h =
      after_event (idle f) (idle f) (idle f) other_start (block_stop ∷ []) "" [] refl
        (stop-Yields f)

  texts-split : (p : Parts) (ps : List Parts) → append (texts (p ∷ [])) (texts ps) ≡ texts (p ∷ ps)
  texts-split (text_parts ts) ps = ap (λ (t : String). append t (texts ps)) (append-nil (whole ts))
  texts-split (tool_parts id name ts) ps = nil-append (texts ps)
  texts-split no_parts ps = nil-append (texts ps)

  sent_calls-split :
      (p : Parts) (ps : List Parts) → sent_calls (p ∷ []) ++ sent_calls ps ≡ sent_calls (p ∷ ps)
  sent_calls-split (text_parts ts) ps = refl
  sent_calls-split (tool_parts id name ts) ps = refl
  sent_calls-split no_parts ps = refl

  finish_behind-split :
      (f : String) (p : Parts) (ps : List Parts)
      → finish_behind (finish_behind f (p ∷ [])) ps ≡ finish_behind f (p ∷ ps)
  finish_behind-split f (text_parts ts) ps = refl
  finish_behind-split f (tool_parts id name ts) ps = refl
  finish_behind-split f no_parts ps = refl

  pub answer-Yields :
      (f stop_reason : String) (ps : List Parts)
      → All Named ps
      → Yields
          (idle f)
          (answer_events ps stop_reason)
          (idle (stopped (some stop_reason) (finish_behind f ps)))
          (texts ps)
          (sent_calls ps)
  unfolding on_events on_event
  answer-Yields f stop_reason [] h = record {
    state = refl;
    collected_text = refl;
    collected_calls = refl;
  }
  answer-Yields f stop_reason (p ∷ ps) h =
      let g = finish_behind f (p ∷ []) in
      let y =
        Yields-append (idle f) (idle g) (idle (stopped (some stop_reason) (finish_behind g ps)))
          (events_of p) (answer_events ps stop_reason) (texts (p ∷ [])) (texts ps)
          (sent_calls (p ∷ [])) (sent_calls ps) (block-Yields f p h.0)
          (answer-Yields g stop_reason ps h.1) in
      record {
        state =
            y.state
            ∙ ap (λ (e : String). idle (stopped (some stop_reason) e)) (finish_behind-split f p ps);
        collected_text = y.collected_text ∙ texts-split p ps;
        collected_calls = y.collected_calls ∙ sent_calls-split p ps;
      }
