-- ===== src/Priority/Scheduler.antt =====
-- writesched_priority.go, priorityWriteScheduler. A pointer to a node is its address; `fresh` is the
-- next unused one, and `fuel` bounds the rounds of a loop along the links. The scratch slice tmp is
-- not kept between calls. Sizes of lists that a configuration gives are not negative.
use h2stream.Prelude.{
  ℕ, zero, suc, ◌-◌, ◌^◌, Bool, true, false, ◌||◌, Option, none, some, List, [], ◌∷◌, ◌++◌, length,
  ◌==◌, leb, ltb, if◌then◌else◌, Run, ok, panic, out_of_fuel, ◌>>=◌,
}
use h2stream.Prelude.Int.{ℤ, pos, ◌+ℤ◌, ◌-ℤ◌, wrap32, ltb_ℤ}
use h2stream.Flow.{Flow}
use h2stream.WriteQueue
use h2stream.WriteQueue.{
  FrameWriteRequest, WriteQueue, WriteQueuePool, stream_id, data_size, consume_queue,
}
use h2stream.Session.{PriorityParam, WriteScheduler}
use h2stream.Priority.{set, NodeState, opened, closed, idle, Links, Nodes, set_parent, add_bytes}
use h2stream.Priority.Order.{Float64, less}
use h2stream.Priority.Walk.{walk}

-- PriorityWriteSchedulerConfig
pub record Config : Type 0 where
  pub max_closed_nodes_in_tree : ℕ
  pub max_idle_nodes_in_tree : ℕ
  pub throttle_out_of_order_writes : Bool

-- priorityWriteScheduler
pub record PriorityWriteScheduler : Type 0 where
  pub links : Links
  pub tree : Nodes
  pub fresh : ℕ
  pub nodes : ℕ → Option ℕ
  pub max_id : ℕ
  pub closed_nodes : List ℕ
  pub idle_nodes : List ℕ
  pub max_closed_nodes_in_tree : ℕ
  pub max_idle_nodes_in_tree : ℕ
  pub write_throttle_limit : ℤ
  pub enable_write_throttle : Bool
  pub queue_pool : WriteQueuePool

-- priorityDefaultWeight
abbrev pub default_weight : ℕ
default_weight = 15

abbrev pub max_int32 : ℤ
max_int32 = pos (2 ^ 31 - 1)

-- The address of ws.root.
abbrev pub root : ℕ
root = 0

abbrev pub default_config : Config
default_config = record {
  max_closed_nodes_in_tree = 10;
  max_idle_nodes_in_tree = 10;
  throttle_out_of_order_writes = false;
}

-- The root alone: its fields are the zero values.
abbrev pub no_links : Links
no_links = record { parent = λ a. none; kids = λ a. none; prev = λ a. none; next = λ a. none }

abbrev pub zero_nodes : Nodes
zero_nodes = record {
  q = λ a. [];
  id = λ a. 0;
  weight = λ a. 0;
  state = λ a. opened;
  bytes = λ a. pos 0;
  subtree_bytes = λ a. pos 0;
}

unfoldable pub configured : Config → PriorityWriteScheduler
configured cfg = record {
  links = no_links;
  tree = zero_nodes;
  fresh = 1;
  nodes = set (λ id. none) 0 (some root);
  max_id = 0;
  closed_nodes = [];
  idle_nodes = [];
  max_closed_nodes_in_tree = cfg.max_closed_nodes_in_tree;
  max_idle_nodes_in_tree = cfg.max_idle_nodes_in_tree;
  write_throttle_limit = if cfg.throttle_out_of_order_writes then pos 1024 else max_int32;
  enable_write_throttle = cfg.throttle_out_of_order_writes;
  queue_pool = [];
}

-- NewPriorityWriteScheduler
unfoldable pub new_priority_write_scheduler : Option Config → PriorityWriteScheduler
unfolding configured
new_priority_write_scheduler none = configured default_config
new_priority_write_scheduler (some cfg) = configured cfg

abbrev S : Type 0
S = PriorityWriteScheduler

-- n.setParent(p)
unfoldable pub move : S → ℕ → Option ℕ → Run S
move s n p = set_parent s.links n p >>= λ l. ok (record s { links = l })

-- &priorityNode{...} at the next address, with the stream's id and the state, and its parent
unfoldable pub make_node : S → ℕ → NodeState → ℕ → Run S
unfolding move
make_node s id state parent =
    let n = s.fresh in
    let t = s.tree in
    let made : S = record s {
      fresh = suc n;
      queue_pool = (WriteQueue.get s.queue_pool).1;
      nodes = set s.nodes id (some n);
      tree = record {
        q = set t.q n (WriteQueue.get s.queue_pool).0;
        id = set t.id n id;
        weight = set t.weight n default_weight;
        state = set t.state n state;
        bytes = set t.bytes n (pos 0);
        subtree_bytes = set t.subtree_bytes n (pos 0);
      };
    } in
    move made n (some parent)

-- The address that a pointer from the map holds, or the root.
abbrev pub or_root : Option ℕ → ℕ
or_root none = root
or_root (some a) = a

-- OpenStream
unfoldable pub open_stream : ℕ → ℕ → S → Run S
unfolding make_node
open_stream id pusher s = elim (s.nodes id) [
  | some n ↦ elim (s.tree.state n) [
    | idle ↦ ok (record s { tree = record (s.tree) { state = set s.tree.state n opened } })
    | _ ↦ panic
  ]
  | none ↦ make_node s id opened (or_root (s.nodes pusher)) >>= λ s'.
      ok (record s' { max_id = if ltb s.max_id id then id else s.max_id })
]

-- The loop of removeNode: k.next is read after k has moved.
unfoldable pub move_kids : ℕ → Links → Option ℕ → Option ℕ → Run Links
move_kids f l p none = ok l
move_kids zero l p (some k) = out_of_fuel
move_kids (suc f) l p (some k) = set_parent l k p >>= λ l'. move_kids f l' p (l'.next k)

-- removeNode
unfoldable pub remove_node : ℕ → S → ℕ → Run S
unfolding move_kids
remove_node fuel s n = move_kids fuel s.links (s.links.parent n) (s.links.kids n) >>= λ l.
    set_parent l n none >>= λ l'.
    ok (record s { links = l'; nodes = set s.nodes (s.tree.id n) none })

-- addClosedOrIdleNode, for the list given: the list after it. The oldest node is removed from a list
-- that is full.
unfoldable pub add_closed_or_idle_node : ℕ → List ℕ → ℕ → ℕ → S → Run (List ℕ × S)
add_closed_or_idle_node fuel ns max n s =
    if max == 0
    then ok (ns, s)
    else (if length ns == max
        then elim ns [
          | [] ↦ panic
          | oldest ∷ rest ↦ remove_node fuel s oldest >>= λ s'. ok (rest ++ n ∷ [], s')
        ]
        else ok (ns ++ n ∷ [], s))

-- CloseStream, after its checks, for the node at an address
unfoldable pub close_node : ℕ → S → ℕ → Run S
unfolding add_closed_or_idle_node
close_node fuel s n =
    let t = record (s.tree) { state = set s.tree.state n closed } in
    add_bytes fuel s.links n (pos 0 -ℤ t.bytes n) t >>= λ t'.
    let s' : S = record s {
      tree = record t' { q = set t'.q n [] };
      queue_pool = WriteQueue.put s.queue_pool (t'.q n);
    } in
    let kept : Run S =
      add_closed_or_idle_node fuel s'.closed_nodes s'.max_closed_nodes_in_tree n s' >>= λ (ns, s'').
      ok (record s'' { closed_nodes = ns }) in
    if ltb 0 s'.max_closed_nodes_in_tree then kept else remove_node fuel s' n

-- CloseStream
unfoldable pub close_stream : ℕ → ℕ → S → Run S
unfolding close_node
close_stream fuel id s = if id == 0 then panic else elim (s.nodes id) [
  | none ↦ panic
  | some n ↦ elim (s.tree.state n) [ opened ↦ close_node fuel s n | _ ↦ panic ]
]

-- The loop of AdjustStream over the ancestors `x` of the new parent: whether it meets `n`.
unfoldable pub depends_on : ℕ → Links → ℕ → Option ℕ → Run Bool
depends_on f l n none = ok false
depends_on zero l n (some x) = out_of_fuel
depends_on (suc f) l n (some x) =
    let rest = depends_on f l n (l.parent x) in if x == n then ok true else rest

-- The new parent takes the place of the node, if it depends on it.
unfoldable pub move_aside : ℕ → Links → ℕ → ℕ → Run Links
unfolding depends_on
move_aside fuel l n parent = depends_on fuel l n (l.parent parent) >>= λ below.
    if below then set_parent l parent (l.parent n) else ok l

-- The loop of AdjustStream for an exclusive dependency: next is read before k moves.
unfoldable pub take_over : ℕ → Links → ℕ → Option ℕ → Run Links
take_over f l n none = ok l
take_over zero l n (some k) = out_of_fuel
take_over (suc f) l n (some k) =
    let moved : Run Links = if k == n then ok l else set_parent l k (some n) in
    moved >>= λ l'. take_over f l' n (l.next k)

-- AdjustStream, for the node of the stream
unfoldable pub adjust_node : ℕ → S → ℕ → PriorityParam → Run S
unfolding move_aside take_over
adjust_node fuel s n p =
    let reparent : ℕ → Run S = λ parent. move_aside fuel s.links n parent >>= λ l.
    (if p.exclusive then take_over fuel l n (l.kids parent) else ok l) >>= λ l'.
    set_parent l' n (some parent) >>= λ l''.
    ok (record s {
      links = l'';
      tree = record (s.tree) { weight = set s.tree.weight n p.weight };
    }) in
    elim (s.nodes p.stream_dep) [
      | none ↦ set_parent s.links n (some root) >>= λ l. ok (record s {
        links = l;
        tree = record (s.tree) { weight = set s.tree.weight n default_weight };
      })
      | some parent ↦ if n == parent then ok s else reparent parent
    ]

-- AdjustStream
unfoldable pub adjust_stream : ℕ → ℕ → PriorityParam → S → Run S
unfolding make_node add_closed_or_idle_node adjust_node
adjust_stream fuel id p s =
    let grouping : Run S = make_node (record s { max_id = id }) id idle root >>= λ s'.
    add_closed_or_idle_node fuel s'.idle_nodes s'.max_idle_nodes_in_tree s.fresh s' >>= λ (ns, s'').
    adjust_node fuel (record s'' { idle_nodes = ns }) s.fresh p in
    let unknown : Run S =
      if leb id s.max_id || s.max_idle_nodes_in_tree == 0 then ok s else grouping in
    if id == 0
    then panic
    else elim (s.nodes id) [ some n ↦ adjust_node fuel s n p | none ↦ unknown ]

-- Push
unfoldable pub push : FrameWriteRequest → S → Run S
push wr s =
    let queue : ℕ → Run S = λ n. ok (record s {
      tree = record (s.tree) { q = set s.tree.q n (WriteQueue.push (s.tree.q n) wr) };
    }) in
    if stream_id wr == 0 then queue root else elim (s.nodes (stream_id wr)) [
      | some n ↦ queue n
      | none ↦ if ltb 0 (data_size wr) then panic else queue root
    ]

-- The flow of the stream of a queue's first request.
abbrev pub head_flow : (ℕ → Option Flow) → WriteQueue → Option Flow
head_flow flows [] = none
head_flow flows (wr ∷ q) = elim wr.stream [ none ↦ none | some id ↦ flows id ]

-- The throttling limit after a frame is popped.
unfoldable pub throttle : Bool → Bool → ℤ → ℤ
throttle true enabled limit =
    let limit' = wrap32 (limit +ℤ pos 1024) in if ltb_ℤ limit' (pos 0) then max_int32 else limit'
throttle false enabled limit = if enabled then pos 1024 else limit

-- The limit on the bytes of the frame.
abbrev pub limit_for : Bool → ℤ → ℤ
limit_for true limit = limit
limit_for false limit = max_int32

-- The callback of Pop
unfoldable pub pop_node :
    ℕ → (ℕ → Option Flow) → ℤ → ℕ → Bool → S → Run (Option (FrameWriteRequest × Option Flow) × S)
unfolding throttle
pop_node fuel flows max_frame_size n open_parent s =
    consume_queue (s.tree.q n) (head_flow flows (s.tree.q n)) max_frame_size
      (limit_for open_parent s.write_throttle_limit)
    >>= λ (o, q, flow).
        let t = record (s.tree) { q = set s.tree.q n q } in
        elim o [
          | none ↦ ok (none, record s { tree = t })
          | some wr ↦ add_bytes fuel s.links n (pos (data_size wr)) t >>= λ t'. ok (
            some (wr, flow),
            record s {
              tree = t';
              write_throttle_limit =
                  throttle open_parent s.enable_write_throttle s.write_throttle_limit;
            },
          )
        ]

module _ (fl : Float64) (sort : (ℕ → ℕ → Bool) → List ℕ → List ℕ) (fuel : ℕ) where
  -- Pop
  unfoldable pub pop :
      (ℕ → Option Flow) → ℤ → S → Run (Option (FrameWriteRequest × Option Flow) × S)
  unfolding pop_node
  pop flows max_frame_size s =
      walk (λ t. t.links) (λ t. t.tree) (λ t l. record t { links = l }) (λ ns. sort (less fl ns))
        (pop_node fuel flows max_frame_size) fuel root false s

  -- The scheduler as a WriteScheduler.
  abbrev pub priority_write_scheduler : WriteScheduler
  priority_write_scheduler = record {
    Sched = PriorityWriteScheduler;
    open_stream = open_stream;
    close_stream = close_stream fuel;
    adjust_stream = adjust_stream fuel;
    push = push;
    pop = pop;
  }
