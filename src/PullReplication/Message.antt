-- ===== src/PullReplication/Message.antt =====
-- valuepullreplication_GEN_.go: what the receiver of a pull-replication message reads in it.
use valuestore.Base.{ℕ, ◌^◌, ◌<◌, ◌≡◌, ◌∷◌, some, arith, length}
use valuestore.Base.Overwrite.{Fields, put_all, Ascends, put_all-ReadsAs, copy_into_whole}
use valuestore.Ring.{Ring}
use valuestore.Bloom.{Sizing, Filter, Msg, to_msg}
use valuestore.Bloom.Message.{IsMade, fields_of, from_msg-ReadsAs}
use valuestore.PullReplication.{
  new_out, node_id, ring_version, partition, cutoff, range_start, range_stop, kt_bloom_filter,
}

-- A message that newOutPullReplicationMsg made on a ring with a local node, from a free message
-- of the store's size, reads in every field what was put there: the node's id, the ring's
-- version, the partition, the cutoff, both ends of the range, and the filter as it was.
pub new_out_fields :
    (sz : Sizing) (ring : Ring) (prm : Msg) (id version part cut start stop : ℕ) (f : Filter)
    → ring.local_node ≡ some id
    → id < 2 ^ 64
    → version < 2 ^ 64
    → part < 2 ^ 32
    → cut < 2 ^ 64
    → start < 2 ^ 64
    → stop < 2 ^ 64
    → IsMade sz f
    → length prm.header ≡ 64
    → length prm.body ≡ length f.bits
    → let msg = new_out (some ring) prm version part cut start stop f in
      (node_id msg ≡ id)
      × (ring_version msg ≡ version)
      × (partition msg ≡ part)
      × (cutoff msg ≡ cut)
      × (range_start msg ≡ start)
      × (range_stop msg ≡ stop)
      × (kt_bloom_filter sz msg ≡ f)
unfolding new_out node_id ring_version partition cutoff range_start range_stop kt_bloom_filter
    to_msg
new_out_fields sz ring prm id version part cut start stop f local hid hv hp hc hs he made long
      fits =
    let fields : Fields =
      (0, (8, id))
      ∷ (8, (8, version))
      ∷ (16, (4, part))
      ∷ (20, (8, cut))
      ∷ (28, (8, start))
      ∷ (36, (8, stop))
      ∷ fields_of f 44 in
    let asc : Ascends 0 (length prm.header) fields = rw long (
      (omega arith, (omega arith, hid)),
      (
        (omega arith, (omega arith, hv)),
        (
          (omega arith, (omega arith, hp)),
          (
            (omega arith, (omega arith, hc)),
            (
              (omega arith, (omega arith, hs)),
              (
                (omega arith, (omega arith, he)),
                (
                  (omega arith, (omega arith, made.n_word)),
                  (
                    (omega arith, (omega arith, made.p_word)),
                    ((omega arith, (omega arith, omega (arith, made.salt_word))), tt),
                  ),
                ),
              ),
            ),
          ),
        ),
      ),
    ) in
    let (a, (b, (c, (d, (e, (g, rest)))))) = put_all-ReadsAs 0 fields prm.header asc in
    rw local (
      rw (copy_into_whole prm.body f.bits fits)
        (a, b, c, d, e, g, from_msg-ReadsAs sz f (put_all fields prm.header) 44 made rest))
