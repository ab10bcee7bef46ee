-- ===== src/Proxy/Decide/Loop.antt =====
-- squid-infoproxy/src/main.rs: the answers of the loop over Squid's lines.
use fleetsuite.Common.{
  ◌≡◌, refl, ap, ◌≢◌, inl, inr, Bool, true, false, none, some, List, [], ◌∷◌, ◌++◌, map, arith,
  if◌then◌else◌, Bool-cases, filter, is_empty,
}
use fleetsuite.Common.Text.{
  Text, split_whitespace, trim, trim_start_by, trim_end_by, split_by, is_whitespace, cons_head,
  nonempty,
}
use fleetsuite.Proxy.Args.{Args}
use fleetsuite.Proxy.Rule.{Nets}
use fleetsuite.Proxy.Store.{Store}
use fleetsuite.Proxy.Decide.{verdict_text, decide, serve, serve_tokens, answer}

no_word :
    (s : Text)
    → filter nonempty (split_by is_whitespace s) ≡ []
    → trim_start_by is_whitespace s ≡ []
unfolding split_by trim_start_by
no_word [] e = refl
no_word (c ∷ s) e = by_head (no_word s) (is_whitespace c) e
  where
    kept : (ws : List Text) → filter nonempty (cons_head c ws) ≢ []
    kept [] q = absurd (ground arith)
    kept (w ∷ ws) q = absurd (ground arith)

    by_head :
        (filter nonempty (split_by is_whitespace s) ≡ [] → trim_start_by is_whitespace s ≡ [])
        → (b : Bool)
        → filter nonempty
            (if b then [] ∷ split_by is_whitespace s else cons_head c (split_by is_whitespace s))
          ≡ []
        → (if b then trim_start_by is_whitespace s else c ∷ s) ≡ []
    by_head ih true q = ih q
    by_head ih false q = absurd (kept (split_by is_whitespace s) q)

some_token : (s : Text) → is_empty (trim s) ≡ false → split_whitespace s ≢ []
unfolding split_whitespace trim trim_end_by
some_token s n e = cc (ap (trim_end_by is_whitespace) (no_word s e))

module _ (nets : Nets) {S : Type 0} (valkey : Store S) (args : Args) where
  -- The answer that the protocol wants for a line: a verdict of `decide` on the line's fields, with
  -- the channel's id in front exactly where the helper runs with concurrency.
  pub data Answers : List Text → Text → Type 0 where
    plain :
        (fields : List Text) (s : S)
        → args.concurrent ≡ false
        → Answers fields (verdict_text (decide nets valkey args fields s).0 ++ 10 ∷ [])
    on_channel :
        (channel : Text) (fields : List Text) (s : S)
        → args.concurrent ≡ true
        → Answers
            (channel ∷ fields)
            (channel ++ (32 ∷ verdict_text (decide nets valkey args fields s).0 ++ 10 ∷ []))

  -- Answers in the order of the lines; a blank line has none.
  pub data AnswersAll : List Text → List Text → Type 0 where
    done : AnswersAll [] []
    blank :
        {line : Text} {lines outs : List Text}
        → is_empty (trim line) ≡ true
        → AnswersAll lines outs
        → AnswersAll (line ∷ lines) outs
    next :
        {line out : Text} {lines outs : List Text}
        → is_empty (trim line) ≡ false
        → Answers (split_whitespace line) out
        → AnswersAll lines outs
        → AnswersAll (line ∷ lines) (out ∷ outs)

  tokens_answered :
      (ts : List Text) (s : S) → ts ≢ [] → Answers ts (serve_tokens nets valkey args ts s).0
  unfolding serve_tokens
  tokens_answered [] s n = absurd (n refl)
  tokens_answered (t ∷ ts) s n = pick args.concurrent refl
    where
      pick :
          (b : Bool)
          → args.concurrent ≡ b
          → Answers
              (t ∷ ts)
              (if◌then◌else◌ {A = Text × S} b
                (
                  answer nets valkey (some t) (decide nets valkey args ts s).0,
                  (decide nets valkey args ts s).1,
                )
                (
                  answer nets valkey none (decide nets valkey args (t ∷ ts) s).0,
                  (decide nets valkey args (t ∷ ts) s).1,
                )).0
      pick true e = on_channel t ts s e
      pick false e = plain (t ∷ ts) s e

  -- Over a client each of whose calls returns a reply or an error, every line that is not blank gets one
  -- answer, in the lines' order, as long as lines can be read and answers written. A client that panics,
  -- as Valkey's does on some replies, ends the program instead and is no such client.
  pub serve_answers :
      (lines : List Text) (s : S)
      → AnswersAll lines (serve nets valkey args (map (λ l. (some l, true)) lines) s).0
  unfolding serve
  serve_answers [] s = done
  serve_answers (line ∷ lines) s = elim (Bool-cases (is_empty (trim line))) [
    | inl b ↦ rw b (blank b (serve_answers lines s))
    | inr b ↦ rw b (
        next b (tokens_answered (split_whitespace line) s (some_token line b))
          (serve_answers lines (serve_tokens nets valkey args (split_whitespace line) s).1))
  ]
