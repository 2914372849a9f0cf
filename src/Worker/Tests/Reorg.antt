-- ===== src/Worker/Tests/Reorg.antt =====
-- The sample after a deep reorganisation.
use tr4ce_app.Prelude.{◌≡◌, All, refl, ok, err, true, any, some, arith}
use tr4ce_app.Platform.Plain.{plain}
use tr4ce_app.Bytes.{bytes_equal, bytes_text, bytes_to_hex, hex_to_bytes, parse_pairs}
use tr4ce_app.Identifiers.{entity_name, reorg_invalidation_id, uuid_v5}
use tr4ce_app.Observations.Tables.{provider_has_no_block}
use tr4ce_app.Observations.Orphans.{
  list_promoted_block_hashes, order_blocks, insert_block, distinct, audit, append_invalidations,
  invalidate_orphaned_block,
}
use tr4ce_app.Observations.Cursors.{
  block_of, read_application_cursor, put_cursor, write_application_cursor,
  rewind_application_cursor,
}
use tr4ce_app.Worker.Confirmed.{stream_key}
use tr4ce_app.Worker.DeepReorg.{
  find_orphans, shallowest, invalidate_all, rewind_to, rewind, repair, reconcile_deep_reorg,
}
use tr4ce_app.Worker.DeepReorg.Repaired.{HashesAreBytes}
use tr4ce_app.Worker.DeepReorg.Reconciled.{OnChain, reconcile_deep_reorg-OnChain}
use tr4ce_app.Worker.DeepReorg.Rewound.{
  Covered, unanswered, reconcile_deep_reorg-unanswered, reconcile_deep_reorg-rewound,
}
use tr4ce_app.Worker.Tests.Sample.{reorganised, silent, stored_tables, repaired}

repaired_ok : reconcile_deep_reorg plain reorganised stored_tables ≡ ok repaired
unfolding reconcile_deep_reorg find_orphans list_promoted_block_hashes order_blocks distinct
    bytes_equal bytes_to_hex bytes_text insert_block repair invalidate_all invalidate_orphaned_block
    hex_to_bytes audit parse_pairs rewind read_application_cursor shallowest entity_name
    reorg_invalidation_id uuid_v5 put_cursor rewind_application_cursor write_application_cursor
    append_invalidations rewind_to
repaired_ok = refl

bytes_held : HashesAreBytes stored_tables
bytes_held = (((omega arith, tt), tt), ((omega arith, tt), tt))

reconcile_deep_reorg-OnChain_example :
    OnChain reorganised.canonical_hash_at reorganised.chain_id reorganised.from_block repaired.0
reconcile_deep_reorg-OnChain_example =
    reconcile_deep_reorg-OnChain plain reorganised stored_tables repaired.0 repaired.1 bytes_held
      repaired_ok

rewound_to_four :
    block_of (read_application_cursor reorganised.chain_id stream_key repaired.0) ≡ some 4
unfolding reconcile_deep_reorg find_orphans list_promoted_block_hashes order_blocks distinct
    bytes_equal bytes_to_hex bytes_text insert_block repair invalidate_all invalidate_orphaned_block
    hex_to_bytes audit parse_pairs rewind read_application_cursor shallowest entity_name
    reorg_invalidation_id uuid_v5 put_cursor rewind_application_cursor write_application_cursor
    append_invalidations rewind_to
rewound_to_four = refl

reconcile_deep_reorg-rewound_example : All (Covered 4) repaired.1.orphaned
reconcile_deep_reorg-rewound_example =
    reconcile_deep_reorg-rewound plain reorganised stored_tables repaired.0 repaired.1 4 repaired_ok
      rewound_to_four

one_unanswered :
    any
      (λ b. unanswered silent.canonical_hash_at b)
      (list_promoted_block_hashes silent.chain_id silent.from_block stored_tables)
    ≡ true
unfolding list_promoted_block_hashes order_blocks distinct bytes_equal bytes_to_hex bytes_text
    insert_block
one_unanswered = refl

reconcile_deep_reorg-unanswered_example :
    reconcile_deep_reorg plain silent stored_tables ≡ err provider_has_no_block
reconcile_deep_reorg-unanswered_example =
    reconcile_deep_reorg-unanswered plain silent stored_tables one_unanswered
