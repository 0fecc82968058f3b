-- ===== src/WriteQueue/Content.antt =====
-- writesched.go: what the requests of a stream put on the wire, in order, under Consume.
use h2stream.Prelude.{
  ℕ, ◌≡◌, refl, sym, ap, ◌∙◌, Bool, false, Bool-cases, inl, inr, Option, none, some, List, [], ◌∷◌,
  ◌++◌, append-nil, append_assoc, map, take, drop, take-append-drop, length, ltb, ◌==◌,
  if◌then◌else◌, ok, Post, Post-bind, Post-any, Post-if,
}
use h2stream.Prelude.Int.{ℤ, pos, ltb_ℤ, pos_part}
use h2stream.Flow
use h2stream.Flow.{Flow}
use h2stream.Frame.{WriteFramer, write_data}
use h2stream.WriteQueue.{
  FrameWriteRequest, WriteQueue, Consumed, nothing, whole, split, allowed, consume_data, consume,
  consume_queue, push, stream_id,
}
use mathlib.Core.List.{map-append}

-- A byte of DATA, an END_STREAM flag on DATA, or any other frame.
pub data Item : Type 0 where
  byte : ℕ → Item
  end_of_data : Item
  frame : Option WriteFramer → Item

abbrev pub data_items : List ℕ → Bool → List Item
data_items p ended = map byte p ++ (if ended then end_of_data ∷ [] else [])

abbrev pub items_of : Option WriteFramer → List Item
items_of (some (write_data _ p ended)) = data_items p ended
items_of w = frame w ∷ []

-- The items of a request, if it is of the stream `k`.
abbrev pub items_for : ℕ → FrameWriteRequest → List Item
items_for k wr = if stream_id wr == k then items_of wr.write else []

abbrev pub content : ℕ → WriteQueue → List Item
content k [] = []
content k (wr ∷ q) = items_for k wr ++ content k q

abbrev pub taken : ℕ → Option FrameWriteRequest → List Item
taken k none = []
taken k (some wr) = items_for k wr

data_items-split :
    (n : ℕ) (p : List ℕ) (ended : Bool)
    → data_items (take n p) false ++ data_items (drop n p) ended ≡ data_items p ended
data_items-split n p ended =
    let e = if ended then end_of_data ∷ [] else [] in
    ap (λ l. l ++ (map byte (drop n p) ++ e)) (append-nil (map byte (take n p)))
    ∙ sym (append_assoc (map byte (take n p)) (map byte (drop n p)) e)
    ∙ ap (λ l. l ++ e) (sym (map-append byte (take n p) (drop n p)))
    ∙ ap (λ l. map byte l ++ e) (take-append-drop n p)

-- What Consume does with the items of its request.
abbrev Keeps : ℕ → FrameWriteRequest → Consumed → Type 0
Keeps k wr nothing = Unit {0}
Keeps k wr (whole wr') = wr' ≡ wr
Keeps k wr (split x y) = items_for k x ++ items_for k y ≡ items_for k wr

split_keeps :
    (k : ℕ) (o : Option ℕ) (d d' : Option ℕ) (id n : ℕ) (p : List ℕ) (ended : Bool)
    → items_for k
          (record { stream = o; write = some (write_data id (take n p) false); done = none })
        ++ items_for k
            (record { stream = o; write = some (write_data id (drop n p) ended); done = d })
      ≡ items_for k (record { stream = o; write = some (write_data id p ended); done = d' })
unfolding stream_id
split_keeps k none d d' id n p ended = elim (Bool-cases (0 == k)) [
  | inl e ↦ rw e (data_items-split n p ended)
  | inr e ↦ rw e refl
]
split_keeps k (some j) d d' id n p ended = elim (Bool-cases (j == k)) [
  | inl e ↦ rw e (data_items-split n p ended)
  | inr e ↦ rw e refl
]

consume_data-Keeps :
    (k : ℕ) (o d : Option ℕ) (flow : Flow) (a : ℤ) (id : ℕ) (p : List ℕ) (ended : Bool)
    → let wr : FrameWriteRequest = record {
      write = some (write_data id p ended);
      stream = o;
      done = d;
    } in
      Post (consume_data wr flow a id p ended) (λ (c, f). Keeps k wr c)
unfolding consume_data
consume_data-Keeps k o d flow a id p ended =
    let wr : FrameWriteRequest = record {
      write = some (write_data id p ended);
      stream = o;
      done = d;
    } in
    let P : Consumed × Flow → Type 0 = λ (c, f). Keeps k wr c in
    Post-if P (ltb_ℤ (pos 0) a) _ (ok (nothing, flow))
      (Post-if P (ltb (pos_part a) (length p)) _ _
        (Post-any P (Flow.take flow a) _ (λ f. split_keeps k o d d id (pos_part a) p ended))
        (Post-any P (Flow.take flow (pos (length p))) _ (λ f. refl)))
      tt

consume-Keeps :
    (k : ℕ) (wr : FrameWriteRequest) (flow : Option Flow) (size n : ℤ)
    → Post (consume wr flow size n) (λ (c, f). Keeps k wr c)
unfolding consume
consume-Keeps k wr flow size n = go wr.write wr.stream wr.done flow
  where
    go :
        (w : Option WriteFramer) (o d : Option ℕ) (flow : Option Flow)
        → Post
            (consume (record { write = w; stream = o; done = d }) flow size n)
            (λ (c, f). Keeps k (record { write = w; stream = o; done = d }) c)
    go (some (write_data id (x ∷ p) ended)) o d none = tt
    go (some (write_data id (x ∷ p) ended)) o d (some f) =
        Post-bind _ _ (consume_data _ f (allowed f size n) id (x ∷ p) ended) _
          (consume_data-Keeps k o d f (allowed f size n) id (x ∷ p) ended) (λ (c, f') h. h)
    go w o d flow = refl

-- The method consume of writeQueue takes the front of what the queue has of each stream.
pub consume_queue-content :
    (k : ℕ) (q : WriteQueue) (flow : Option Flow) (size n : ℤ)
    → Post (consume_queue q flow size n) (λ (o, q', f). taken k o ++ content k q' ≡ content k q)
unfolding consume_queue
consume_queue-content k [] flow size n = refl
consume_queue-content k (wr ∷ q) flow size n =
    Post-bind _ _ (consume wr flow size n) _ (consume-Keeps k wr flow size n) (λ (c, f). go c f)
  where
    go :
        (c : Consumed) (f : Option Flow)
        → Keeps k wr c
        → Post {A = Option FrameWriteRequest × WriteQueue × Option Flow}
            (elim c [
              | nothing ↦ ok (none, wr ∷ q, f)
              | whole wr' ↦ ok (some wr', q, f)
              | split wr' rest ↦ ok (some wr', rest ∷ q, f)
            ])
            (λ (o, q', f). taken k o ++ content k q' ≡ content k (wr ∷ q))
    go nothing f h = refl
    go (whole wr') f h = ap (λ x. items_for k x ++ content k q) h
    go (split x y) f h =
        sym (append_assoc (items_for k x) (items_for k y) (content k q))
        ∙ ap (λ l. l ++ content k q) h

pub content-push :
    (k : ℕ) (q : WriteQueue) (wr : FrameWriteRequest)
    → content k (push q wr) ≡ content k q ++ items_for k wr
unfolding push
content-push k [] wr = append-nil (items_for k wr)
content-push k (x ∷ q) wr =
    ap (◌++◌ (items_for k x)) (content-push k q wr)
    ∙ sym (append_assoc (items_for k x) (content k q) (items_for k wr))
