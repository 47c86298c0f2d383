-- ===== src/Markdown/Spans/Edit/Texts.antt =====
-- The text of a span before, after or around the place where a source is edited.
use mathlib.Core.List.{append_cancel_left}
use burlmd.Prelude.{◌+◌, ◌≤◌, ◌<◌, ◌≡◌, sym, ap, ◌∙◌, some, ◌++◌, append_assoc, arith}
use burlmd.Prelude.Text.{Text}
use burlmd.Prelude.Bytes.{
  Range, byte_len, byte_len-append, get, get-at, get-eq-some, prefix_of_prefix,
}

-- The source with the focused Block's text `old` in its place, and with `new` there.
pub record Edited (source source' : Text) (e : Range) (old new : Text) : Type 0 where
  pub before : Text
  pub after : Text
  pub was : source ≡ before ++ (old ++ after)
  pub is : source' ≡ before ++ (new ++ after)
  pub starts : byte_len before ≡ e.start
  pub stops : byte_len before + byte_len old ≡ e.stop

module _ {source source' old new : Text} {e : Range} (k : Edited source source' e old new) where
  -- A Block before the focused leaf keeps its span and its text.
  pub get-before :
      (r : Range) {t : Text} → r.stop ≤ e.start → get source r ≡ some t → get source' r ≡ some t
  get-before r {t} low h =
      let (a, b, text, starts, stops) = get-eq-some source r h in
      let regrouped : (a ++ t) ++ b ≡ k.before ++ (old ++ k.after) =
        append_assoc a t b ∙ sym text ∙ k.was in
      let (m, p) =
        prefix_of_prefix (a ++ t) b k.before (old ++ k.after) regrouped
          (omega (arith, byte_len-append a t, k.starts, starts, stops)) in
      let whole : source' ≡ a ++ (t ++ (m ++ (new ++ k.after))) =
        k.is
        ∙ ap (λ x. x ++ (new ++ k.after)) p
        ∙ append_assoc (a ++ t) m (new ++ k.after)
        ∙ append_assoc a t (m ++ (new ++ k.after)) in
      get-at a t (m ++ (new ++ k.after)) whole starts stops

  -- A Block after it has its text where its span has moved to.
  pub get-after :
      (r r' : Range) {t : Text}
      → e.stop ≤ r.start
      → r'.start + byte_len old ≡ r.start + byte_len new
      → r'.stop + byte_len old ≡ r.stop + byte_len new
      → get source r ≡ some t
      → get source' r' ≡ some t
  get-after r r' {t} high from to h =
      let (a, b, text, starts, stops) = get-eq-some source r h in
      let front : (k.before ++ old) ++ k.after ≡ a ++ (t ++ b) =
        append_assoc k.before old k.after ∙ sym k.was ∙ text in
      let (m, p) =
        prefix_of_prefix (k.before ++ old) k.after a (t ++ b) front
          (omega (arith, byte_len-append k.before old, k.stops, starts)) in
      let tail : k.after ≡ m ++ (t ++ b) =
        append_cancel_left (k.before ++ old) k.after (m ++ (t ++ b))
          (front ∙ ap (λ x. x ++ (t ++ b)) p ∙ append_assoc (k.before ++ old) m (t ++ b)) in
      let whole : source' ≡ (k.before ++ (new ++ m)) ++ (t ++ b) =
        k.is ∙ ap (λ x. k.before ++ (new ++ x)) tail ∙ simp append_assoc in
      let measure : byte_len a ≡ byte_len k.before + byte_len old + byte_len m =
        ap byte_len p
        ∙ byte_len-append (k.before ++ old) m
        ∙ ap (λ n. n + byte_len m) (byte_len-append k.before old) in
      let measure' : byte_len (k.before ++ (new ++ m))
          ≡ byte_len k.before + (byte_len new + byte_len m) =
        byte_len-append k.before (new ++ m)
        ∙ ap (λ n. byte_len k.before + n) (byte_len-append new m) in
      get-at (k.before ++ (new ++ m)) t b whole (omega arith) (omega arith)

  -- A Block around it keeps all of its text but the leaf's.
  pub get-around :
      (r r' : Range) {t : Text}
      → r.start < e.start
      → e.stop ≤ r.stop
      → r'.start ≡ r.start
      → r'.stop + byte_len old ≡ r.stop + byte_len new
      → get source r ≡ some t
      → (x : Text) × (y : Text) × (t ≡ x ++ (old ++ y)) × (get source' r' ≡ some (x ++ (new ++ y)))
  get-around r r' {t} low high from to h =
      let (a, b, text, starts, stops) = get-eq-some source r h in
      let front : a ++ (t ++ b) ≡ k.before ++ (old ++ k.after) = sym text ∙ k.was in
      let (x, p) =
        prefix_of_prefix a (t ++ b) k.before (old ++ k.after) front
          (omega (arith, starts, k.starts)) in
      let rest : t ++ b ≡ x ++ (old ++ k.after) =
        append_cancel_left a (t ++ b) (x ++ (old ++ k.after))
          (front ∙ ap (λ z. z ++ (old ++ k.after)) p ∙ append_assoc a x (old ++ k.after)) in
      let measure : byte_len k.before ≡ byte_len a + byte_len x =
        ap byte_len p ∙ byte_len-append a x in
      let (y, q) =
        prefix_of_prefix (x ++ old) k.after t b (append_assoc x old k.after ∙ sym rest)
          (omega (arith, byte_len-append x old, k.starts, k.stops)) in
      let tail : k.after ≡ y ++ b = append_cancel_left (x ++ old) k.after (y ++ b) (
        append_assoc x old k.after ∙ sym rest ∙ ap (λ z. z ++ b) q ∙ append_assoc (x ++ old) y b) in
      let whole : source' ≡ a ++ ((x ++ (new ++ y)) ++ b) =
        k.is
        ∙ ap (λ z. k.before ++ (new ++ z)) tail
        ∙ ap (λ z. z ++ (new ++ (y ++ b))) p
        ∙ simp append_assoc in
      let inner : t ≡ x ++ (old ++ y) = q ∙ append_assoc x old y in
      let was : byte_len t ≡ byte_len x + (byte_len old + byte_len y) =
        ap byte_len inner
        ∙ byte_len-append x (old ++ y)
        ∙ ap (λ n. byte_len x + n) (byte_len-append old y) in
      let is : byte_len (x ++ (new ++ y)) ≡ byte_len x + (byte_len new + byte_len y) =
        byte_len-append x (new ++ y) ∙ ap (λ n. byte_len x + n) (byte_len-append new y) in
      (x, y, inner, get-at a (x ++ (new ++ y)) b whole (omega arith) (omega arith))
