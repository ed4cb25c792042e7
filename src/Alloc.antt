-- ===== src/Alloc.antt =====
-- alloc.c: the metadata of the mapped ranges, as nodes of a store. The nodes in use are a circular,
-- doubly linked list, `alloc_list`; the others are a list through `next`, `free_list`. `none` is an
-- access through NULL, the fatal exit, or a walk that is out of fuel. The addresses that `mmap` gives
-- and the result of `munmap` are arguments; `mmap` fails by a fatal exit, so it gives an address.
-- Each function holds the lock of the lists.
pub mod Ring
pub mod Link
pub mod Walk
pub mod Insert
pub mod Remove
pub mod Pool
pub mod New
pub mod Map
pub mod Unmap
mod Examples
use thread_scan.Base.{
  ℕ, zero, suc, ◌+◌, ◌-◌, Option, none, some, ◌>>=◌, ltb, leb, ◌==◌, if◌then◌else◌, true, false,
  add64,
}

-- `memory_metadata_t`
pub record Metadata : Type 0 where
  pub addr : ℕ
  pub length : ℕ
  pub next : ℕ
  pub prev : ℕ

abbrev pub Nodes : Type 0
Nodes = ℕ → Metadata

abbrev pub write : Nodes → ℕ → Metadata → Nodes
write m x d y = if x == y then d else m y

-- `x->next = y` and `x->prev = y`
abbrev pub set_next : Nodes → ℕ → ℕ → Nodes
set_next m x y = write m x (record (m x) { next = y })

abbrev pub set_prev : Nodes → ℕ → ℕ → Nodes
set_prev m x y = write m x (record (m x) { prev = y })

-- `LOW_ADDR` and `HIGH_ADDR`
abbrev pub low_addr : Metadata → ℕ
low_addr m = m.addr

abbrev pub high_addr : Metadata → ℕ
high_addr m = add64 m.addr m.length

pub record Allocator : Type 0 where
  pub nodes : Nodes
  pub free_list : ℕ
  pub alloc_list : ℕ

-- The four writes that put `meta` in front of `curr`.
pub link_before : Nodes → ℕ → ℕ → Option Nodes
link_before m curr meta =
    let m1 : Nodes = set_prev m meta (m curr).prev in
    let m2 : Nodes = set_next m1 meta curr in
    let before : ℕ = (m2 curr).prev in
    if before == 0 then none else some (set_prev (set_next m2 before meta) curr meta)

-- `while (LOW_ADDR(curr) < HIGH_ADDR(meta)) curr = curr->next;`
pub insert_walk : ℕ → Nodes → ℕ → ℕ → Option ℕ
insert_walk zero m high curr = none
insert_walk (suc fuel) m high curr = elim (curr == 0) [
  | true ↦ none
  | false ↦ elim (ltb (low_addr (m curr)) high) [
    | true ↦ insert_walk fuel m high (m curr).next
    | false ↦ some curr
  ]
]

-- `metadata_do_insert`
pub do_insert : ℕ → Allocator → ℕ → Option Allocator
do_insert fuel a meta =
    if a.alloc_list == 0
    then some
        (record a { nodes = set_next (set_prev a.nodes meta meta) meta meta; alloc_list = meta })
    else if (a.nodes a.alloc_list).prev == 0
    then none
    else if leb (high_addr (a.nodes (a.nodes a.alloc_list).prev)) (low_addr (a.nodes meta))
    then (do m ← link_before a.nodes a.alloc_list meta; some (record a { nodes = m }))
    else do
      curr ← insert_walk fuel a.nodes (high_addr (a.nodes meta)) a.alloc_list
      m ← link_before a.nodes curr meta
      some
          (record a { nodes = m; alloc_list = if curr == a.alloc_list then meta else a.alloc_list })

-- `for (curr = alloc_list; curr->addr != addr; curr = curr->next);`
pub remove_walk : ℕ → Nodes → ℕ → ℕ → Option ℕ
remove_walk zero m addr curr = none
remove_walk (suc fuel) m addr curr = elim (curr == 0) [
  | true ↦ none
  | false ↦ elim ((m curr).addr == addr) [
    | true ↦ some curr
    | false ↦ remove_walk fuel m addr (m curr).next
  ]
]

-- The writes that take `curr` out, the new `alloc_list`, and the reset of the links.
pub unlink : Allocator → ℕ → Allocator
unlink a curr =
    let m1 : Nodes = set_prev a.nodes (a.nodes curr).next (a.nodes curr).prev in
    let m2 : Nodes = set_next m1 (m1 curr).prev (m1 curr).next in
    record a {
      nodes = set_next (set_prev m2 curr 0) curr 0;
      alloc_list = if curr == a.alloc_list then (m2 curr).next else a.alloc_list;
    }

-- `metadata_remove`
pub metadata_remove : ℕ → Allocator → ℕ → Option (ℕ × Allocator)
metadata_remove fuel a addr = do
  curr ← remove_walk fuel a.nodes addr a.alloc_list
  some (curr, unlink a curr)

-- `ALLOC_BLOCKSIZE`, and the size of `memory_metadata_t`
abbrev pub alloc_blocksize : ℕ
alloc_blocksize = 0x1000

abbrev pub node_size : ℕ
node_size = 32

-- A node that is put in front of the free nodes, as in `metadata_free`.
pub metadata_free : Allocator → ℕ → Allocator
metadata_free a meta = record a { nodes = set_next a.nodes meta a.free_list; free_list = meta }

-- The loop that makes nodes of a block at `p`, from `offset`, with at most `left` rounds.
pub carve_loop : ℕ → ℕ → ℕ → Allocator → Allocator
carve_loop zero p offset a = a
carve_loop (suc left) p offset a = elim (ltb offset (alloc_blocksize - node_size)) [
  | true ↦ carve_loop left p (offset + node_size) (metadata_free a (p + offset))
  | false ↦ a
]

-- A fresh block, mapped at `p`, whose first node describes it.
pub new_block : ℕ → Allocator → ℕ → Option Allocator
new_block fuel a p =
    do_insert fuel
      (record a {
        nodes = write a.nodes p (record { addr = p; length = alloc_blocksize; next = 0; prev = 0 });
      })
      p
    >>= λ b. some (carve_loop 128 p node_size b)

-- `metadata_new`; a block that it has to map lies at `p`.
pub metadata_new : ℕ → Allocator → ℕ → Option (ℕ × Allocator)
metadata_new fuel a p = (if a.free_list == 0 then new_block fuel a p else some a) >>= λ b.
    if b.free_list == 0
    then none
    else some (b.free_list, record b { free_list = (b.nodes b.free_list).next })

-- `threadscan_alloc_mmap`: the range of `size` bytes lies at `addr`.
pub alloc_mmap : ℕ → Allocator → ℕ → ℕ → ℕ → Option Allocator
alloc_mmap fuel a p addr size = do
  (meta, b) ← metadata_new fuel a p
  do_insert fuel
      (record b {
        nodes = write b.nodes meta (record (b.nodes meta) { length = size; addr = addr });
      })
      meta

-- `threadscan_alloc_munmap`, with the range that goes to `munmap`.
pub alloc_munmap : (ℕ → ℕ → ℕ) → ℕ → Allocator → ℕ → Option ((ℕ × ℕ) × Allocator)
alloc_munmap munmap fuel a ptr = do
  (meta, b) ← metadata_remove fuel a ptr
  let d = b.nodes meta
  if munmap d.addr d.length == 0 then some ((d.addr, d.length), metadata_free b meta) else none
