-- ===== src/Router/SseParser/Chunks.antt =====
-- The events do not depend on how the stream is cut into chunks.
use mathlib.Core.List.{append_assoc, append-nil}
use wood_fired_tasks.Prelude.{
  ℕ, ◌≡◌, refl, sym, ap, ◌∙◌, false, inl, inr, List, [], ◌∷◌, ◌++◌, ◌==◌, Bool-cases,
}
use wood_fired_tasks.Prelude.Text.{Text}
use wood_fired_tasks.Router.SseParser.{
  newline, SseEvent, Pending, Parser, fresh, in_line, split_lines, process_line, process_lines,
  feed, feed_all,
}

abbrev pub flat : List Text → Text
flat [] = []
flat (c ∷ cs) = c ++ flat cs

-- A second piece is split behind what the first left over.
abbrev behind : List Text × Text → Text → List Text × Text
behind (ls, rest) b = let (ls', rest') = split_lines (rest ++ b) in (ls ++ ls', rest')

in_line-behind :
    (c : ℕ) (r : List Text × Text) (b : Text)
    → (c == newline) ≡ false
    → in_line c (behind r b) ≡ behind (in_line c r) b
unfolding split_lines
in_line-behind c ([], rest) b goes = rw goes
in_line-behind c (l ∷ ls, rest) b goes = refl

split_lines-append : (a b : Text) → split_lines (a ++ b) ≡ behind (split_lines a) b
unfolding split_lines
split_lines-append [] b = refl
split_lines-append (c ∷ a) b = elim (Bool-cases (c == newline)) [
  | inl ends ↦ rw (ends, split_lines-append a b)
  | inr goes ↦ rw (goes, split_lines-append a b) (in_line-behind c (split_lines a) b goes)
]

abbrev pub after :
    Pending × List SseEvent → (Pending → Pending × List SseEvent) → Pending × List SseEvent
after (p, out) f = let (p', out') = f p in (p', out ++ out')

pub process_lines-append :
    (ls ms : List Text) (p : Pending)
    → process_lines (ls ++ ms) p ≡ after (process_lines ls p) (process_lines ms)
unfolding process_lines
process_lines-append [] ms p = refl
process_lines-append (l ∷ ls) ms p =
    rw (process_lines-append ls ms (process_line l p).0) (simp append_assoc)

-- The two pieces one after the other.
abbrev then_feed : Parser × List SseEvent → Text → Parser × List SseEvent
then_feed (s, out) b = let (s', out') = feed s b in (s', out ++ out')

feed-append : (s : Parser) (a b : Text) → feed s (a ++ b) ≡ then_feed (feed s a) b
unfolding feed
feed-append s a b = rw (← append_assoc s.line_buffer a b) (
    rw (split_lines-append (s.line_buffer ++ a) b) (
      rw
        (process_lines-append (split_lines (s.line_buffer ++ a)).0
          (split_lines ((split_lines (s.line_buffer ++ a)).1 ++ b)).0 s.pending)
        refl))

abbrev then_all : Parser × List SseEvent → List Text → Parser × List SseEvent
then_all (s, out) cs = let (s', out') = feed_all s cs in (s', out ++ out')

feed_all-cons :
    (s : Parser) (c : Text) (cs : List Text) → feed_all s (c ∷ cs) ≡ then_all (feed s c) cs
unfolding feed_all
feed_all-cons s c cs = refl

feed_all-nil : (s : Parser) → feed_all s [] ≡ (s, [])
unfolding feed_all
feed_all-nil s = refl

feed_all-flat :
    (s : Parser) (c : Text) (cs : List Text) → feed_all s (c ∷ cs) ≡ feed s (flat (c ∷ cs))
feed_all-flat s c [] = rw feed_all-cons (simp (feed_all-nil, append-nil))
feed_all-flat s c (d ∷ cs) =
    rw feed_all-cons (rw (feed_all-flat (feed s c).0 d cs) (sym (feed-append s c (flat (d ∷ cs)))))

feed_all-fresh : (cs : List Text) → feed_all fresh cs ≡ feed fresh (flat cs)
unfolding feed_all feed split_lines process_lines
feed_all-fresh [] = refl
feed_all-fresh (c ∷ cs) = feed_all-flat fresh c cs

-- Two ways to cut the same stream into chunks give the same events and leave the parser in the
-- same state.
pub feed_all_chunking :
    (cs ds : List Text) → flat cs ≡ flat ds → feed_all fresh cs ≡ feed_all fresh ds
feed_all_chunking cs ds e = feed_all-fresh cs ∙ ap (feed fresh) e ∙ sym (feed_all-fresh ds)
