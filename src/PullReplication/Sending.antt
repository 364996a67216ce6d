-- ===== src/PullReplication/Sending.antt =====
-- valuepullreplication_GEN_.go: the message that inPullReplication answers with.
use mathlib.Core.Path.{subst}
use valuestore.Base.{
  ℕ, ◌+◌, ◌%◌, ◌/◌, ◌-◌, ◌^◌, ◌≡◌, refl, sym, ap, ◌∙◌, Bool, true, false, ◌||◌, List, [], ◌∷◌, ◌++◌,
  Option, none, some, inl, inr, Bool-cases, append-nil, append_assoc, All, ◌==◌, leb, length,
  if◌then◌else◌,
}
use valuestore.Base.Bytes.{put_word}
use valuestore.Base.Overwrite.{overwrite}
use valuestore.Package.{Error, has_bits, is_not_found, tsb_local_removal}
use valuestore.Ring.{Ring}
use valuestore.LocMap.{Key}
use valuestore.Bloom.{Sizing, Filter, Msg}
use valuestore.Bloom.Rounds.{Fits}
use valuestore.Bloom.Answers.{Entry, add_all}
use valuestore.BulkSet
use valuestore.BulkSet.{body_cap, entry_header_length}
use valuestore.BulkSet.Entries.{encode, before, add-entry_bytes}
use valuestore.PullReplication.{
  Item, Picked, is_fresh, Around, scan_ranges, cutoff, kt_bloom_filter, range_start, range_stop,
  answer_loop, in_pull,
}
use valuestore.PullReplication.Answer.{KeysOf, ScannedIn, IsUnsent, picked-IsUnsent}

-- What a key is answered with.
abbrev pub entry_of : Around → Key → BulkSet.Entry
entry_of env k = record {
  key_a = k.key_a;
  key_b = k.key_b;
  timestampbits = (env.read k).0;
  value = (env.read k).1.0;
}

-- The message has entries of that kind behind what it had.
abbrev Adds : (BulkSet.Entry → Type 0) → BulkSet.Msg → BulkSet.Msg × ℕ → Type 0
Adds Ok bsm out = (es : List BulkSet.Entry) × (out.0.body ≡ bsm.body ++ encode es) × All Ok es

module _ (env : Around) (Ok : BulkSet.Entry → Type 0) where
  Adds-stop : (bsm : BulkSet.Msg) (n : ℕ) → Adds Ok bsm (bsm, n)
  Adds-stop bsm n = ([], sym (append-nil bsm.body), tt)

  -- An entry that is added, if it has room.
  Adds-put :
      (k : Key) (bsm : BulkSet.Msg) (n : ℕ) (next : BulkSet.Msg × ℕ)
      → Ok (entry_of env k)
      → Adds Ok (BulkSet.add bsm (entry_of env k)).0 next
      → Adds Ok bsm (if (BulkSet.add bsm (entry_of env k)).1 then next else (bsm, n))
  Adds-put k bsm n next ok (es, body, all) =
      let e = entry_of env k in
      elim (Bool-cases
        (leb (body_cap bsm) (length bsm.body + entry_header_length + length e.value))) [
          | inl tight ↦ let kept = (add-entry_bytes bsm e).0 tight in simp kept (Adds-stop bsm n)
          | inr room ↦
              let (put, bytes, cap) = (add-entry_bytes bsm e).1 room in
              let behind : (bsm.body ++ before e []) ++ encode es
                  ≡ bsm.body ++ before e (encode es) =
                simp append_assoc refl in
              simp put (e ∷ es, body ∙ ap (λ b. b ++ encode es) bytes ∙ behind, (ok, all))
        ]

  -- By the error of the read.
  Adds-read :
      (bsm : BulkSet.Msg) (t : ℕ) (err : Option Error) (skip fine : BulkSet.Msg × ℕ)
      → Adds Ok bsm skip
      → Adds Ok bsm fine
      → Adds Ok bsm (elim err [
        | none ↦ fine
        | some e ↦ if is_not_found (some e) then (if t == 0 then skip else fine) else skip
      ])
  Adds-read bsm t none skip fine skipped added = added
  Adds-read bsm t (some e) skip fine skipped added = elim (Bool-cases (is_not_found (some e))) [
    | inr broken ↦ simp broken skipped
    | inl absent ↦ elim (Bool-cases (t == 0)) [
      | inl never ↦ simp (absent, never) skipped
      | inr deleted ↦ simp (absent, deleted) added
    ]
  ]

  answer_loop-Adds :
      (keys : List Key) (bsm : BulkSet.Msg) (n : ℕ)
      → All (λ k. Ok (entry_of env k)) keys
      → (sz : Sizing) → Adds Ok bsm (answer_loop sz env keys (bsm, n))
  unfolding answer_loop
  answer_loop-Adds [] bsm n ok sz = Adds-stop bsm n
  answer_loop-Adds (k ∷ keys) bsm n (own, ok) sz =
      let t = (env.read k).0 in
      let put = BulkSet.add bsm (entry_of env k) in
      let skip = answer_loop sz env keys (bsm, n) in
      let next = answer_loop sz env keys (put.0, (n + 1) % 2 ^ 32) in
      let skipped : Adds Ok bsm skip = answer_loop-Adds keys bsm n ok sz in
      let added : Adds Ok bsm (if put.1 then next else (bsm, n)) =
        Adds-put k bsm n next own (answer_loop-Adds keys put.0 ((n + 1) % 2 ^ 32) ok sz) in
      let fine : Adds Ok bsm
          (if has_bits t tsb_local_removal then skip else if put.1 then next else (bsm, n)) =
        elim (Bool-cases (has_bits t tsb_local_removal)) [
          | inl gone ↦ simp gone skipped
          | inr here ↦ simp here added
        ] in
      Adds-read bsm t (env.read k).1.1 skip _ skipped fine

-- An entry of an item that a scan of the message's ranges came to, that is no old tombstone, and
-- that the sender did not put into its filter with that timestamp.
abbrev pub IsNews : Around → Msg → List Entry → BulkSet.Entry → Type 0
IsNews env prm entries e =
    (x : Item) × (e ≡ record (entry_of env x.key) { timestampbits = x.timestampbits })
    × ScannedIn env (cutoff prm)
        (scan_ranges (range_start prm) (range_stop prm) env.replicas
          (env.responsible_replica (range_start prm / 2 ^ (64 - env.partition_bit_count) % 2 ^ 32)))
        x
    × (is_fresh env.tombstone_cutoff x.timestampbits ≡ true)
    × IsUnsent entries x

-- No answer, or a message of such entries.
abbrev pub AnswersNews : Around → Msg → List Entry → Option BulkSet.Msg → Type 0
AnswersNews env prm entries none = Unit {0}
AnswersNews env prm entries (some out) =
    (es : List BulkSet.Entry) × (out.body ≡ encode es) × All (IsNews env prm entries) es

AnswersNews-if :
    (env : Around) (prm : Msg) (entries : List Entry) (silent : Bool) (out : BulkSet.Msg)
    → AnswersNews env prm entries (some out)
    → AnswersNews env prm entries (if silent then none else some out)
AnswersNews-if env prm entries true out h = tt
AnswersNews-if env prm entries false out h = h

All-IsNews :
    (env : Around) (prm : Msg) (entries : List Entry) (Good : Item → Type 0) (keys : List Key)
    → ((x : Item) → Good x → IsNews env prm entries (entry_of env x.key))
    → KeysOf Good keys
    → All (λ k. IsNews env prm entries (entry_of env k)) keys
All-IsNews env prm entries Good [] f h = tt
All-IsNews env prm entries Good (k ∷ keys) f ((x, same, good), h) = (
  subst (λ j. IsNews env prm entries (entry_of env j)) same (f x good),
  All-IsNews env prm entries Good keys f h,
)

module _ (sz : Sizing) (env : Around) where
  -- Where the reads of the keys that the scans come to give the timestamps that the scans gave, a
  -- message whose filter was given the sender's entries, and has room for its bits, is dealt with
  -- without a panic, and what is sent for it, if anything is, has entries of items that the scans
  -- of the message's ranges came to, none of them a tombstone older than the cutoff for tombstones,
  -- and none with a timestamp that the sender put into the filter with its key: nothing that the
  -- sender has is sent back.
  pub in_pull-AnswersNews :
      (f g : Filter) (entries : List Entry) (ring : Option Ring) (free : BulkSet.Msg) (prm : Msg)
      → Fits f.m f.bits
      → add_all sz entries f ≡ some g
      → kt_bloom_filter sz prm ≡ g
      → ((x : Item)
          → ScannedIn env
              (cutoff prm)
              (scan_ranges (range_start prm) (range_stop prm) env.replicas (
                env.responsible_replica
                  (range_start prm / 2 ^ (64 - env.partition_bit_count) % 2 ^ 32)))
              x
          → (env.read x.key).0 ≡ x.timestampbits)
      → (answer : Option BulkSet.Msg) × (in_pull sz env ring free prm ≡ some answer)
        × AnswersNews env prm entries answer
  unfolding in_pull BulkSet.new_out
  in_pull-AnswersNews f g entries ring free prm fits added same steady =
      let (p, e, keys) = picked-IsUnsent sz env f g entries prm fits added same in
      let bsm = BulkSet.new_out ring free in
      let start : BulkSet.Msg = record bsm { header = overwrite 0 (put_word 8 0) bsm.header } in
      let out = (answer_loop sz env p.keys (start, 0)).0 in
      let sent =
        answer_loop-Adds env (IsNews env prm entries) p.keys start 0
          (All-IsNews env prm entries _ p.keys
            (λ x (at, fresh, unsent). (
              x,
              λ i. record (entry_of env x.key) { timestampbits = steady x at i },
              at,
              fresh,
              unsent,
            ))
            keys)
          sz in
      let reply : Option Picked → Option (Option BulkSet.Msg) = λ o. elim o [
        | none ↦ none
        | some q ↦
            let all = (answer_loop sz env q.keys (start, 0)).0 in
            some (if (length q.keys == 0) || (length all.body == 0) then none else some all)
      ] in
      let silent = (length p.keys == 0) || (length out.body == 0) in
      (
        if silent then none else some out,
        ap reply e,
        AnswersNews-if env prm entries silent out sent,
      )
