-- ===== src/Worker/DeepReorg/Agrees.antt =====
-- What apps/worker/src/reconcile-deep-reorg.ts leaves agrees with the chain.
use tr4ce_app.Prelude.{
  ℕ, ◌==◌, ◌≡◌, refl, ap, ◌∙◌, subst, Bool, true, false, ◌&&◌, ◌||◌, not, Option, none, some, List,
  [], ◌∷◌, ◌++◌, ok, map, all, any, keep, arith, >>=-eq-ok, ok_inj, ==_iff,
}
use tr4ce_app.Bytes.{Text, bytes_equal, lower}
use tr4ce_app.Bytes.Equality.{bytes_equal_iff, bytes_equal_self}
use tr4ce_app.Observations.Tables.{Tables, provider_has_no_block}
use tr4ce_app.Observations.Promote.{required}
use tr4ce_app.Observations.Sound.Reports.{required-some}
use tr4ce_app.Observations.Orphans.{
  OrphanedBlock, PromotedBlockHash, flow_from, snapshot_from, hash_of_flow, hash_of_snapshot,
  same_block, distinct, insert_block, order_blocks, list_promoted_block_hashes,
}
use tr4ce_app.Worker.DeepReorg.{add_orphan, find_orphans}

pub and_split : (a b : Bool) → (a && b) ≡ true → (a ≡ true) × (b ≡ true)
and_split true b e = (refl, e)
and_split false b e = cc

and_intro : {a b : Bool} → a ≡ true → b ≡ true → (a && b) ≡ true
and_intro e f = cc

same_block-eq : (b c : PromotedBlockHash) → same_block b c ≡ true → b ≡ c
same_block-eq b c s =
    let (number, hash) = and_split (b.block_number == c.block_number) _ s in
    ap (λ n. block n b.block_hash) ((==_iff b.block_number c.block_number).0 number)
    ∙ ap (λ h. block c.block_number h) ((bytes_equal_iff b.block_hash c.block_hash).0 hash)
  where
    block : ℕ → Text → PromotedBlockHash
    block n h = record { block_number = n; block_hash = h }

module _ (P : PromotedBlockHash → Bool) where
  all-insert_block :
      (b : PromotedBlockHash) (bs : List PromotedBlockHash)
      → all P (insert_block b bs) ≡ true
      → all P (b ∷ bs) ≡ true
  unfolding insert_block
  all-insert_block b [] h = h
  all-insert_block b (c ∷ bs) h = ground (arith, h, all-insert_block b bs)

  all-order_blocks :
      (bs : List PromotedBlockHash) → all P (order_blocks bs) ≡ true → all P bs ≡ true
  unfolding order_blocks
  all-order_blocks [] h = h
  all-order_blocks (b ∷ bs) h =
      let inserted = all-insert_block b (order_blocks bs) h in
      ground (arith, inserted, all-order_blocks bs)

  same_block-all :
      (b : PromotedBlockHash) (bs : List PromotedBlockHash)
      → any (λ c. same_block b c) bs ≡ true
      → all P bs ≡ true
      → P b ≡ true
  same_block-all b [] s h = cc
  same_block-all b (c ∷ bs) s h =
      ground (
        arith,
        s,
        h,
        same_block-all b bs,
        λ (e : same_block b c ≡ true). ap P (same_block-eq b c e),
      )

  all-distinct : (bs : List PromotedBlockHash) → all P (distinct bs) ≡ true → all P bs ≡ true
  unfolding distinct
  all-distinct [] h = h
  all-distinct (b ∷ bs) h = ground (arith, h, same_block-all b (distinct bs), all-distinct bs)

  all-append :
      (xs ys : List PromotedBlockHash)
      → all P (xs ++ ys) ≡ true
      → (all P xs ≡ true) × (all P ys ≡ true)
  all-append [] ys h = (refl, h)
  all-append (x ∷ xs) ys h = ground (arith, h, all-append xs ys)

  all-map-keep :
      {Row : Type 0} (f : Row → PromotedBlockHash) (q : Row → Bool) (rows : List Row)
      → all P (map f (keep q rows)) ≡ true
      → all (λ r. not (q r) || P (f r)) rows ≡ true
  all-map-keep f q [] h = refl
  all-map-keep f q (r ∷ rows) h = ground (arith, h, all-map-keep f q rows)

  -- What holds of every promoted hash holds of the hash of every row that promotion left canonical.
  pub promoted-all :
      (chain_id from_block : ℕ) (tables : Tables)
      → all P (list_promoted_block_hashes chain_id from_block tables) ≡ true
      → (all (λ r. not (flow_from chain_id from_block r) || P (hash_of_flow r)) tables.flows ≡ true)
        × (all
              (λ r. not (snapshot_from chain_id from_block r) || P (hash_of_snapshot r))
              tables.snapshots
            ≡ true)
  unfolding list_promoted_block_hashes
  promoted-all chain_id from_block tables h =
      let both = all-append _ _ (all-distinct _ (all-order_blocks _ h)) in
      (
        all-map-keep hash_of_flow (λ r. flow_from chain_id from_block r) tables.flows both.1,
        all-map-keep hash_of_snapshot (λ r. snapshot_from chain_id from_block r) tables.snapshots
            both.0,
      )

-- The chain has, at the block's number, the hash that was promoted.
abbrev pub agrees : (ℕ → Option Text) → PromotedBlockHash → Bool
agrees canonical_hash_at block = matches (canonical_hash_at block.block_number)
  where
    matches : Option Text → Bool
    matches none = false
    matches (some hash) = bytes_equal hash (lower block.block_hash)

abbrev pub names : PromotedBlockHash → OrphanedBlock → Bool
names block orphan =
    orphan.block_number == block.block_number
    && bytes_equal orphan.orphaned_block_hash block.block_hash

-- Every promoted block is on the chain or among the orphans.
abbrev pub sorted_out : (ℕ → Option Text) → List OrphanedBlock → PromotedBlockHash → Bool
sorted_out canonical_hash_at orphaned block =
    agrees canonical_hash_at block || any (λ o. names block o) orphaned

module _ (canonical_hash_at : ℕ → Option Text) (b : PromotedBlockHash) (hash : Text) where
  sorted_out-head :
      (orphaned : List OrphanedBlock)
      → canonical_hash_at b.block_number ≡ some hash
      → sorted_out canonical_hash_at (add_orphan b hash orphaned) b ≡ true
  sorted_out-head orphaned e = grind (arith, e, bytes_equal_self b.block_hash)

  sorted_out-tail :
      (orphaned : List OrphanedBlock) (blocks : List PromotedBlockHash)
      → all (λ c. sorted_out canonical_hash_at orphaned c) blocks ≡ true
      → all (λ c. sorted_out canonical_hash_at (add_orphan b hash orphaned) c) blocks ≡ true
  sorted_out-tail orphaned [] h = refl
  sorted_out-tail orphaned (c ∷ blocks) h = ground (arith, h, sorted_out-tail orphaned blocks)

pub find_orphans-all :
    (canonical_hash_at : ℕ → Option Text) (blocks : List PromotedBlockHash)
    (orphaned : List OrphanedBlock)
    → find_orphans canonical_hash_at blocks ≡ ok orphaned
    → all (λ b. sorted_out canonical_hash_at orphaned b) blocks ≡ true
unfolding find_orphans
find_orphans-all canonical_hash_at [] orphaned e = refl
find_orphans-all canonical_hash_at (b ∷ blocks) orphaned e =
    let (hash, found, e1) =
      >>=-eq-ok (required provider_has_no_block (canonical_hash_at b.block_number)) _ e in
    let (rest, r, e2) = >>=-eq-ok (find_orphans canonical_hash_at blocks) _ e1 in
    let done = ok_inj e2 in
    subst (λ os. all (λ c. sorted_out canonical_hash_at os c) (b ∷ blocks) ≡ true) done
      (and_intro
        (sorted_out-head canonical_hash_at b hash rest
          (required-some provider_has_no_block _ found))
        (sorted_out-tail canonical_hash_at b hash rest blocks
          (find_orphans-all canonical_hash_at blocks rest r)))
