-- ===== src/Ingest/File/Laws/Growth.antt =====
-- Reading a file again as it grows, and reading it once, with `drainFile` of
-- internal/ingest/file/file.go.
use mathlib.Core.List.{append_assoc, append-nil}
use cloud_sre_agent.Prelude.{
  ℕ, suc, ◌+◌, ◌≤◌, ◌≡◌, refl, ap, sym, inl, inr, true, false, List, [], ◌∷◌, ◌++◌, some, Text,
  length, length-append, drop, arith, Bool-cases, ◌==◌, trim_right,
}
use cloud_sre_agent.Domain.{LogEvent}
use cloud_sre_agent.Ingest.File.{Library, Source}
use cloud_sre_agent.Ingest.File.Parse.{parse_line}
use cloud_sre_agent.Ingest.File.Drain.{
  Env, State, FileState, go_on, extend_first, complete_lines, is_line_end, emit, emit_line,
  drain_line, drain_lines, drain_text, differs, resume_at,
}

-- The bytes of some lines.
abbrev pub total : List Text → ℕ
total [] = 0
total (l ∷ ls) = length l + total ls

total-extend_first : (c : ℕ) (ls : List Text) → total (extend_first c ls) ≤ suc (total ls)
unfolding extend_first
total-extend_first c [] = omega arith
total-extend_first c (l ∷ ls) = omega arith

pub total-complete_lines : (s : Text) → total (complete_lines s) ≤ length s
unfolding complete_lines
total-complete_lines [] = omega arith
total-complete_lines (c ∷ s) =
    ground (arith, total-complete_lines s, total-extend_first c (complete_lines s))

drop-suc : (n m c : ℕ) (s : Text) → m ≡ suc n → drop m (c ∷ s) ≡ drop n s
drop-suc n m c s h = rw h

-- A byte before a text of which the lines `ls` are known.
complete_lines-extend_first :
    (c : ℕ) (s : Text) (ls : List Text)
    → (c == 10) ≡ false
    → complete_lines s ≡ ls ++ complete_lines (drop (total ls) s)
    → complete_lines (c ∷ s)
      ≡ extend_first c ls ++ complete_lines (drop (total (extend_first c ls)) (c ∷ s))
unfolding complete_lines extend_first
complete_lines-extend_first c s [] other h = refl
complete_lines-extend_first c s (l ∷ ls) other h =
    rw (other, drop-suc (length l + total ls) (suc (length l) + total ls) c s (omega arith))
      (ap (extend_first c) h)

complete_lines-cons :
    (c : ℕ) (s : Text)
    → (c == 10) ≡ false
    → complete_lines (c ∷ s) ≡ extend_first c (complete_lines s)
unfolding complete_lines
complete_lines-cons c s other = rw other refl

complete_lines-append_cons :
    (c : ℕ) (s more : Text)
    → (c == 10) ≡ false
    → complete_lines (s ++ more)
      ≡ complete_lines s ++ complete_lines (drop (total (complete_lines s)) (s ++ more))
    → complete_lines (c ∷ s ++ more)
      ≡ complete_lines (c ∷ s)
        ++ complete_lines (drop (total (complete_lines (c ∷ s))) (c ∷ s ++ more))
complete_lines-append_cons c s more other h =
    rw (complete_lines-cons c s other)
      (complete_lines-extend_first c (s ++ more) (complete_lines s) other h)

-- What comes after the complete lines of a text is where the lines of a longer text go on.
complete_lines-append :
    (s more : Text)
    → complete_lines (s ++ more)
      ≡ complete_lines s ++ complete_lines (drop (total (complete_lines s)) (s ++ more))
unfolding complete_lines
complete_lines-append [] more = refl
complete_lines-append (c ∷ s) more = elim (Bool-cases (c == 10)) [
  | inl nl ↦
      let n = total (complete_lines s) in
      rw (nl, drop-suc n (1 + n) c (s ++ more) (omega arith))
        (ap (λ ls. (c ∷ []) ∷ ls) (complete_lines-append s more))
  | inr other ↦ complete_lines-append_cons c s more other (complete_lines-append s more)
]

-- The environment never shuts the source down, and the receiver takes every event.
pub record IsUndisturbed {W Info : Type 0} (env : Env W Info) : Type 0 where
  pub never_stopped : (w : W) → env.stopped w ≡ (false, w)
  pub takes : (ev : LogEvent) (w : W) → (env.send ev w).0 ≡ true

-- What a pass over a file that holds a text leaves.
abbrev pub left_by :
    {W Info : Type 0} → (Text → Info) → Text → ℕ × State W → FileState Info × State W
left_by info_of text (offset, s) = (record { offset = offset; info = some (info_of text) }, s)

abbrev pub concat : List Text → Text
concat [] = []
concat (chunk ∷ chunks) = chunk ++ concat chunks

-- A file that keeps its identity, and whose information gives its length.
pub record IsGrowing {W Info : Type 0} (env : Env W Info) (info_of : Text → Info) : Type 0 where
  pub size_of : (t : Text) → env.size (info_of t) ≡ length t
  pub same : (a b : Info) → env.same_file a b ≡ true

-- Further passes over a file that has grown by a chunk before each, as `scan` makes them: each
-- resumes at the offset that `resume_at` says, given the file's information.
module _ {W Info : Type 0} (lib : Library) (env : Env W Info) (src : Source)
    (info_of : Text → Info) where
  abbrev pub follow : Text → Text → List Text → FileState Info × State W → FileState Info × State W
  follow path text [] (st, s) = (st, s)
  follow path text (chunk ∷ chunks) (st, s) =
      let content = text ++ chunk in
      follow path content chunks (
        left_by info_of content
          (drain_text lib env src path (resume_at lib env src st (info_of content)) content s))

module _ {W Info : Type 0} (lib : Library) (env : Env W Info) (src : Source)
    (calm : IsUndisturbed env) where
  drain_line-go_on :
      (path line : Text) (s : State W) → (drain_line lib env src path line s).0 ≡ go_on
  unfolding drain_line emit_line emit
  drain_line-go_on path line s =
      let trimmed = trim_right is_line_end line in
      let parsed = parse_line lib src.enc path trimmed (env.now s.world) s.seq in
      rw (calm.never_stopped s.world) (ground (arith, calm.takes parsed.0 s.world))

  drain_lines-append :
      (path : Text) (offset : ℕ) (xs ys : List Text) (s : State W)
      → drain_lines lib env src path offset (xs ++ ys) s ≡ (
          let (offset', s') = drain_lines lib env src path offset xs s in
          drain_lines lib env src path offset' ys s')
  unfolding drain_lines
  drain_lines-append path offset [] ys s = rw (calm.never_stopped s.world) refl
  drain_lines-append path offset (x ∷ xs) ys s =
      rw (drain_line-go_on path x s, drain_lines)
        (drain_lines-append path (offset + length x) xs ys (drain_line lib env src path x s).1)

  drain_lines-total :
      (path : Text) (offset : ℕ) (ls : List Text) (s : State W)
      → (drain_lines lib env src path offset ls s).0 ≡ offset + total ls
  unfolding drain_lines
  drain_lines-total path offset [] s = omega arith
  drain_lines-total path offset (l ∷ ls) s =
      rw (drain_line-go_on path l s, drain_lines)
        (omega (
          arith,
          drain_lines-total path (offset + length l) ls (drain_line lib env src path l s).1,
        ))

  drain_lines-total_from_0 :
      (path : Text) (ls : List Text) (s : State W)
      → (drain_lines lib env src path 0 ls s).0 ≡ total ls
  drain_lines-total_from_0 path ls s = omega (arith, drain_lines-total path 0 ls s)

  -- To go on where the reading of a text ended is to read the longer text from its beginning.
  drain_text-append :
      (path text more : Text) (s : State W)
      → drain_text lib env src path 0 (text ++ more) s ≡ (
          let (offset, s') = drain_text lib env src path 0 text s in
          drain_text lib env src path offset (text ++ more) s')
  unfolding drain_text
  drain_text-append path text more s =
      rw
        (
          complete_lines-append text more,
          drain_lines-append,
          drain_lines-total_from_0 path (complete_lines text) s,
        )
        refl

  drain_text-le-length :
      (path text : Text) (s : State W) → (drain_text lib env src path 0 text s).0 ≤ length text
  unfolding drain_text
  drain_text-le-length path text s =
      omega (arith, drain_lines-total path 0 (complete_lines text) s, total-complete_lines text)

  module _ (info_of : Text → Info) (growing : IsGrowing env info_of) where
    resume_at-offset :
        (offset : ℕ) (old : Info) (content : Text)
        → offset ≤ length content
        → resume_at lib env src (record { offset = offset; info = some old }) (info_of content)
          ≡ offset
    unfolding resume_at differs
    resume_at-offset offset old content h =
        ground (arith, growing.size_of content, growing.same old (info_of content), h)

    -- A file that is read whole, and then again after each of the chunks that it grows by, from where
    -- `resume_at` says, leaves the events, the offset and the state that reading the grown file once
    -- from its beginning leaves, if nothing shuts the source down, the file keeps its identity and
    -- its information gives its length: no line is read twice, and a line is not read before it
    -- is complete.
    pub follow-drain_text :
        (path text : Text) (chunks : List Text) (s : State W)
        → follow lib env src info_of path text chunks
            (left_by info_of text (drain_text lib env src path 0 text s))
          ≡ left_by info_of
              (text ++ concat chunks)
              (drain_text lib env src path 0 (text ++ concat chunks) s)
    follow-drain_text path text [] s = rw (append-nil text) refl
    follow-drain_text path text (chunk ∷ chunks) s =
        let read = drain_text lib env src path 0 text s in
        let le = drain_text-le-length path text s in
        rw
          (
            resume_at-offset read.0 (info_of text) (text ++ chunk)
                (omega (arith, le, length-append text chunk)),
            sym (drain_text-append path text chunk s),
            sym (append_assoc text chunk (concat chunks)),
          )
          (follow-drain_text path (text ++ chunk) chunks s)
