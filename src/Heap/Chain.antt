-- ===== src/Heap/Chain.antt =====
-- The free list in memory (kernel/src/heap.rs): the headers that a chain of blocks has.
use package.solaros.Prelude.{
  ℕ, ◌<◌, ◌≡◌, ◌≢◌, subst, refl, sym, ◌∙◌, ap, List, [], ◌∷◌, All, All-map, arith,
}
use mathlib.Core.List.{tail}
use solaros.Heap.{FreeBlock, Heap, update, set_next, set_link}
use solaros.Heap.Blocks.{Block, onto}

abbrev pub Headers : Type 0
Headers = ℕ → FreeBlock

-- From `p` the links lead over the blocks `bs` to the null pointer.
abbrev pub Chain : Headers → ℕ → List Block → Type 0
Chain hs p [] = p ≡ 0
Chain hs p (b ∷ bs) = (p ≡ b.addr) × ((hs b.addr).size ≡ b.size) × Chain hs (hs b.addr).next bs

abbrev pub last_addr : List Block → ℕ
last_addr [] = 0
last_addr (b ∷ past) = b.addr

-- From the head of the list the links lead over `past`, given in reverse, to `cur`.
abbrev pub Back : Heap → List Block → ℕ → Type 0
Back h [] cur = h.free ≡ cur
Back h (b ∷ past) cur =
    ((h.headers b.addr).size ≡ b.size) × ((h.headers b.addr).next ≡ cur) × Back h past b.addr

-- The headers of these blocks are the same in both.
abbrev pub Agree : Headers → Headers → List Block → Type 0
Agree hs hs' = All (λ b. hs' b.addr ≡ hs b.addr)

pub Chain-Agree :
    (hs hs' : Headers) (p : ℕ) (bs : List Block) → Agree hs hs' bs → Chain hs p bs → Chain hs' p bs
Chain-Agree hs hs' p [] same c = c
Chain-Agree hs hs' p (b ∷ bs) same c = (
  c.0,
  ap FreeBlock.size same.0 ∙ c.1,
  Chain-Agree hs hs' (hs' b.addr).next bs same.1 (rw same.0 c.2),
)

pub Back-Agree :
    (h h' : Heap) (past : List Block) (cur : ℕ)
    → h'.free ≡ h.free
    → Agree h.headers h'.headers past
    → Back h past cur
    → Back h' past cur
Back-Agree h h' [] cur head same k = head ∙ k
Back-Agree h h' (b ∷ past) cur head same k = (
  ap FreeBlock.size same.0 ∙ k.0,
  ap FreeBlock.next same.0 ∙ k.1,
  Back-Agree h h' past b.addr head same.1 k.2,
)

-- What was walked over and what is left are together the free list.
pub Chain-onto :
    (h : Heap) (past rest : List Block) (cur : ℕ)
    → Back h past cur
    → Chain h.headers cur rest
    → Chain h.headers h.free (onto past rest)
Chain-onto h [] rest cur k c = rw k c
Chain-onto h (b ∷ past) rest cur k c = Chain-onto h past (b ∷ rest) b.addr k.2 (refl, k.0, rw k.1 c)

pub update_ne : (a x : ℕ) (b : FreeBlock) (hs : Headers) → x ≢ a → update a b hs x ≡ hs x
update_ne a x b hs ne = ground arith

pub update_self : (a : ℕ) (b : FreeBlock) (hs : Headers) → update a b hs a ≡ b
update_self a b hs = ground arith

pub update-Agree :
    (a : ℕ) (b : FreeBlock) (hs : Headers) (bs : List Block)
    → All (λ c. c.addr ≢ a) bs
    → Agree hs (update a b hs) bs
update-Agree a b hs bs = All-map (λ c ne. update_ne a c.addr b hs ne) bs

set_link_ne :
    (p v : ℕ) (h : Heap) → 0 < p → set_link p v h ≡ record h { headers = set_next p v h.headers }
unfolding set_link
set_link_ne p v h pos = ground arith

-- `set_link` changes no header but the one at `p`.
pub set_link-headers : (p v a : ℕ) (h : Heap) → a ≢ p → (set_link p v h).headers a ≡ h.headers a
unfolding set_link
set_link-headers p v a h ne = ground arith

-- `set_link` makes the walk lead to `v`.
pub set_link-Back :
    (h : Heap) (past : List Block) (cur v : ℕ)
    → All (λ b. 0 < b.addr) past
    → All (λ b. b.addr ≢ last_addr past) (tail past)
    → Back h past cur
    → Back (set_link (last_addr past) v h) past v
unfolding set_link
set_link-Back h [] cur v pos apart k = refl
set_link-Back h (b ∷ past) cur v pos apart k =
    let h' : Heap = record h { headers = set_next b.addr v h.headers } in
    let done : Back h' (b ∷ past) v = (
      ap FreeBlock.size (update_self b.addr (record (h.headers b.addr) { next = v }) h.headers)
          ∙ k.0,
      ap FreeBlock.next (update_self b.addr (record (h.headers b.addr) { next = v }) h.headers),
      Back-Agree h h' past b.addr refl
          (update-Agree b.addr (record (h.headers b.addr) { next = v }) h.headers past apart) k.2,
    ) in
    subst (λ (g : Heap). Back g (b ∷ past) v) (sym (set_link_ne b.addr v h pos.0)) done
