-- ===== src/Mpool/Memory/Registry/Register.antt =====
-- mpool/src/v7_mpool.c: what the registration of a block type makes of the registry.
use mathlib.Core.Path.{subst}
use bplib.Common.{
  ℕ, suc, ◌<◌, ◌^◌, ◌≡◌, ◌≢◌, refl, sym, ap, ◌∙◌, inl, inr, ◌⊎◌, Bool, true, false, Option, none,
  some, List, [], ◌∷◌, ◌==◌, ==_iff, arith, if◌then◌else◌, Option-cases,
}
use bplib.Rbtree.{
  Link, Root, no_compare, Status, bp_success, bp_duplicate, bp_error, search_generic,
  insert_value_generic,
}
use bplib.Rbtree.Order.{inorder}
use bplib.Rbtree.Keys.{IsSorted, Has, find}
use bplib.Rbtree.Search.{search_from-find}
use bplib.Rbtree.Insert.{stored_key-small, search_generic-insert, insert_value_generic_lem}
use bplib.Mpool.Memory.{api, Memory, BlockApi, Layout, alloc_block_internal}
use bplib.Mpool.Memory.Alloc.{IsMemory, MayAlloc, Given, Refused, alloc_block_internal_lem}
use bplib.Mpool.Memory.Registry.{
  TypedPool, find_api, insert_api, register_allocated, register_blocktype_internal,
}

-- No block of the list has this number for its link.
abbrev pub Unused : ℕ → List ℕ → Type 0
Unused number [] = Unit
Unused number (id ∷ ids) = (number ≢ suc id) × Unused number ids

abbrev pub AllDifferent : List ℕ → Type 0
AllDifferent [] = Unit
AllDifferent (id ∷ ids) = Unused (suc id) ids × AllDifferent ids

-- The links are in order, no free block has a link of the registry, and no block is free twice.
pub record IsRegistry (pool : TypedPool) : Type 0 where
  pub sorted : IsSorted (inorder pool.blocktype_registry.root)
  pub unshared :
      (key : ℕ) (link : Link)
      → search_generic key pool.blocktype_registry no_compare ≡ some link
      → Unused link.block pool.memory.free_blocks.block_list
  pub distinct : AllDifferent pool.memory.free_blocks.block_list

find-Has : (k : ℕ) (links : List Link) → find k links ≡ none → Has k links → ⊥
unfolding find
find-Has k [] e h = absurd h
find-Has k (x ∷ links) e (inl h) = ground arith
find-Has k (x ∷ links) e (inr h) = find-Has k links (ground (arith, e)) h

insert-bp_success :
    (k block : ℕ) (tree : Root)
    → k < 2 ^ 63
    → IsSorted (inorder tree.root)
    → search_generic k tree no_compare ≡ none
    → (insert_value_generic k tree false block no_compare).status ≡ bp_success
unfolding search_generic
insert-bp_success k block tree small s e = elim (insert_value_generic_lem k tree block s) [
  | inl (dup, same, has) ↦ absurd (
      find-Has k (inorder tree.root) (sym (search_from-find k tree.root s) ∙ e)
        (subst (λ j. Has j (inorder tree.root)) (stored_key-small k small) has))
  | inr (done, put) ↦ done
]

-- What a registration promises.
pub record Registers (magic_number : ℕ) (entry : BlockApi) (pool pool' : TypedPool) : Type 0 where
  pub lookup :
      (signature : ℕ)
      → find_api pool' signature
        ≡ (if magic_number == signature then some entry else find_api pool signature)
  pub still : IsRegistry pool'

-- What a lookup gives, from what the search gives.
api_at : (ℕ → BlockApi) → Option Link → Option BlockApi
api_at apis none = none
api_at apis (some link) = some (apis link.block)

registered_at :
    (pool : TypedPool) (signature : ℕ)
    → find_api pool signature
      ≡ api_at pool.apis (search_generic signature pool.blocktype_registry no_compare)
unfolding find_api api_at
registered_at pool signature = refl

pub known :
    (pool : TypedPool) (signature : ℕ) (link : Link)
    → search_generic signature pool.blocktype_registry no_compare ≡ some link
    → find_api pool signature ≢ none
unfolding api_at
known pool signature link e h =
    apart (sym (registered_at pool signature ∙ ap (api_at pool.apis) e) ∙ h)
  where
    apart : some (pool.apis link.block) ≡ none → ⊥
    apart h' = cc

apart_here :
    (number id : ℕ) (rest : List ℕ) → Unused number (id ∷ rest) → (number == suc id) ≡ false
apart_here number id rest (apart, others) = ground (arith, apart)

-- The entries of the old links stay.
api_at_set :
    (apis : ℕ → BlockApi) (entry : BlockApi) (id : ℕ) (rest : List ℕ) (found : Option Link)
    → ((link : Link) → found ≡ some link → Unused link.block (id ∷ rest))
    → api_at (λ i. if i == suc id then entry else apis i) found ≡ api_at apis found
unfolding api_at
api_at_set apis entry id rest none h = refl
api_at_set apis entry id rest (some link) h = rw (apart_here link.block id rest (h link refl)) refl

api_at_insert :
    (apis : ℕ → BlockApi) (entry : BlockApi) (key id : ℕ) (rest : List ℕ) (here : Bool)
    (old : Option Link)
    → ((link : Link) → old ≡ some link → Unused link.block (id ∷ rest))
    → api_at
        (λ i. if i == suc id then entry else apis i)
        (if here then some record { key = key; block = suc id } else old)
      ≡ (if here then some entry else api_at apis old)
unfolding api_at
api_at_insert apis entry key id rest true old h = rw ((==_iff (suc id) (suc id)).1 refl) refl
api_at_insert apis entry key id rest false old h = api_at_set apis entry id rest old h

apart_after :
    (key id : ℕ) (rest : List ℕ) (here : Bool) (old : Option Link) (link : Link)
    → ((l : Link) → old ≡ some l → Unused l.block (id ∷ rest))
    → Unused (suc id) rest
    → (if here then some record { key = key; block = suc id } else old) ≡ some link
    → Unused link.block rest
apart_after key id rest true old link h apart e =
    subst (λ n. Unused n rest) (ap (λ o. elim o [ none ↦ 0 | some l ↦ l.block ]) e) apart
apart_after key id rest false old link h apart e = (h link e).1

insert_api_lem :
    (magic_number : ℕ) (entry : BlockApi) (id : ℕ) (rest : List ℕ) (pool : TypedPool)
    (memory : Memory)
    → magic_number < 2 ^ 63
    → IsRegistry pool
    → search_generic magic_number pool.blocktype_registry no_compare ≡ none
    → pool.memory.free_blocks.block_list ≡ id ∷ rest
    → memory.free_blocks.block_list ≡ rest
    → let r = insert_api magic_number entry id (record pool { memory = memory }) in
      (r.1 ≡ bp_success) × (r.0.memory ≡ memory) × Registers magic_number entry pool r.0
unfolding insert_api find_api api_at
insert_api_lem magic_number entry id rest pool memory small reg e free left =
    let i = insert_value_generic magic_number pool.blocktype_registry false (suc id) no_compare in
    let done = insert-bp_success magic_number (suc id) pool.blocktype_registry small reg.sorted e in
    let old : (key : ℕ) (link : Link)
        → search_generic key pool.blocktype_registry no_compare ≡ some link
        → Unused link.block (id ∷ rest) =
      λ key link e'. subst (Unused link.block) free (reg.unshared key link e') in
    let found = λ (key : ℕ).
      search_generic-insert magic_number pool.blocktype_registry (suc id) key small reg.sorted
        done in
    let different : AllDifferent (id ∷ rest) = subst AllDifferent free reg.distinct in
    rw (insert_api, done)
      (
        refl,
        refl,
        record {
          lookup = λ signature.
              registered_at
                (record pool {
                  memory = memory;
                  blocktype_registry = i.tree;
                  apis = λ n. if n == suc id then entry else pool.apis n;
                })
                signature
              ∙ ap (api_at (λ n. if n == suc id then entry else pool.apis n)) (found signature).0
              ∙ api_at_insert pool.apis entry magic_number id rest (magic_number == signature)
                  (search_generic signature pool.blocktype_registry no_compare) (old signature);
          still = record {
            sorted = (found 0).1;
            unshared = λ key link e'. subst (Unused link.block) (sym left) (
                apart_after magic_number id rest (magic_number == key)
                  (search_generic key pool.blocktype_registry no_compare) link (old key) different.0
                  (sym (found key).0 ∙ e'));
            distinct = subst AllDifferent (sym left) different.1;
          };
        },
      )

-- A registration under a known number, one that gets no block, and one that goes through.
abbrev pub Outcome : Layout → ℕ → BlockApi → TypedPool → TypedPool × Status → Type 0
Outcome layout magic_number entry pool r =
    ((r ≡ (pool, bp_duplicate)) × (find_api pool magic_number ≢ none))
    ⊎ (r ≡ (pool, bp_error))
      × (find_api pool magic_number ≡ none)
      × ((free : BlockApi) → MayAlloc layout (find_api pool) api 0 0 pool.memory free → ⊥)
    ⊎ ((r.1 ≡ bp_success)
        × (find_api pool magic_number ≡ none)
        × Registers magic_number entry pool r.0
        × IsMemory r.0.memory)

allocated_lem :
    (layout : Layout) (magic_number : ℕ) (entry : BlockApi) (pool : TypedPool)
    (a : Memory × Option ℕ)
    → magic_number < 2 ^ 63
    → IsRegistry pool
    → search_generic magic_number pool.blocktype_registry no_compare ≡ none
    → Given layout (find_api pool) api 0 0 pool.memory a
      ⊎ Refused layout (find_api pool) api 0 0 pool.memory a
    → Outcome layout magic_number entry pool (register_allocated magic_number entry pool a)
unfolding register_allocated api_at
allocated_lem layout magic_number entry pool a small reg e (inl g) =
    let unknown : find_api pool magic_number ≡ none =
      registered_at pool magic_number ∙ ap (api_at pool.apis) e in
    let done =
      insert_api_lem magic_number entry g.id g.rest pool a.0 small reg e g.first g.free_left in
    rw g.given (inr (inr (done.0, unknown, done.2, subst IsMemory (sym done.1) g.still)))
allocated_lem layout magic_number entry pool a small reg e (inr f) =
    let unknown : find_api pool magic_number ≡ none =
      registered_at pool magic_number ∙ ap (api_at pool.apis) e in
    subst
      (λ a'. Outcome layout magic_number entry pool (register_allocated magic_number entry pool a'))
      (sym f.same) (inr (inl (refl, unknown, f.forbidden)))

-- The registration of a block type under a number below 2 ^ 63, in a pool whose memory is well formed
-- and in whose registry the links are in order and stand in no free block. A number that is
-- registered is refused as a duplicate. If no block for the entry can be had, because the pool keeps
-- its reserve, or because the type 0 is not registered or does not fit, the result is an error; in both cases nothing
-- changes. Otherwise the insertion always goes through: a lookup under the number finds the new entry,
-- every other lookup finds what it found before, and the pool stays well formed.
pub register_blocktype_internal_lem :
    (layout : Layout) (magic_number : ℕ) (entry : BlockApi) (pool : TypedPool)
    → magic_number < 2 ^ 63
    → IsRegistry pool
    → IsMemory pool.memory
    → Outcome layout magic_number entry pool
        (register_blocktype_internal layout magic_number entry pool)
unfolding register_blocktype_internal
register_blocktype_internal_lem layout magic_number entry pool small reg m =
    elim (Option-cases (search_generic magic_number pool.blocktype_registry no_compare)) [
      | inl e ↦
          rw (register_blocktype_internal, e)
            (allocated_lem layout magic_number entry pool
              (alloc_block_internal layout (find_api pool) api 0 0 pool.memory) small reg e
              (alloc_block_internal_lem layout (find_api pool) api 0 0 pool.memory m (omega arith)))
      | inr (link, e) ↦
          rw (register_blocktype_internal, e) (inl (refl, known pool magic_number link e))
    ]
