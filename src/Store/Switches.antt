-- ===== src/Store/Switches.antt =====
-- valuestore_GEN_.go: the refusals of Write, and the switches of writes.
use valuestore.Base.{
  ℕ, ◌≡◌, refl, ap, ◌∙◌, ℤ, Bool, true, false, not, ◌||◌, List, [], ◌∷◌, Option, none, some, inl,
  inr, ltb, if◌then◌else◌, Bool-cases, Option-cases, length, get_elem?, set-get_elem?, All,
}
use valuestore.Base.Bytes.{Bytes}
use valuestore.Package.{Error, disabled, value_too_long}
use valuestore.LocMap.{Key, LocMap}
use valuestore.MemWriter.{Limits, WriteReq, turn}
use valuestore.MemWriter.Refusals.{refusal, refusal-external, turn-refusal}
use valuestore.Store.{
  Worker, bump, Store, Answer, answered, writer_of, worker_index, write_reply, write_at, write,
  bound_error, bits_of, write_done, write_bounded, api_write, enable_writes, disable_writes,
  switch_all,
}

abbrev pub first_error : Option Error → Option Error → Option Error
first_error (some e) o = some e
first_error none o = o

-- The error that a Write meets, in the order of the code's checks.
abbrev pub write_error : (l : LocMap) → Limits → Worker → ℤ → Bytes → Option Error
write_error l lim worker micro v = first_error (bound_error l lim micro) (
    if not worker.enabled
    then some disabled
    else if ltb lim.value_cap (length v)
    then some value_too_long
    else none)

-- A refusal: the error is told and counted, and nothing but the counters changes.
abbrev pub Refused : (l : LocMap) → Store l → Error → Answer l (ℕ × Option Error) → Type 0
Refused l s e (answered after (p, some x)) =
    (x ≡ e)
    × (after ≡ record s {
      counters = record s.counters {
        writes = bump s.counters.writes;
        write_errors = bump s.counters.write_errors;
      };
    })
Refused l s e _ = ⊥

module _ (l : LocMap) (lim : Limits) where
  -- A Write whose timestamp is out of bounds, or else that meets disabled writes, or else whose
  -- value is too long, gives that error, counts a write and a write error and changes nothing
  -- else.
  pub api_write-Refused :
      (s : Store l) (worker : Worker) (k : Key) (micro : ℤ) (v : Bytes) (e : Error)
      → get_elem? s.workers (worker_index l lim s k) ≡ some worker
      → write_error l lim worker micro v ≡ some e
      → Refused l s e (api_write l lim s k micro v)
  unfolding api_write write_bounded write write_at write_reply write_done turn
  api_write-Refused s worker k micro v e at h = elim (Option-cases (bound_error l lim micro)) [
    | inr (x, eb) ↦
        let same : some x ≡ some e = simp eb at h in let is_e : x ≡ e = cc in simp eb (is_e, refl)
    | inl eb ↦
        let counted : Store l = record s {
          counters = record s.counters { writes = bump s.counters.writes };
        } in
        let req : WriteReq = record {
          key = k;
          timestampbits = bits_of l lim micro;
          value = v;
          internal = false;
        } in
        let met : refusal lim worker.enabled req ≡ some e =
          refusal-external lim worker.enabled req refl ∙ simp eb at h in
        let answer = turn-refusal l lim (writer_of l lim counted worker) req e met in
        simp (eb, at, answer)
          (
            refl,
            ap
                (λ ws. record s {
                  workers = ws;
                  counters = record s.counters {
                    writes = bump s.counters.writes;
                    write_errors = bump s.counters.write_errors;
                  };
                })
                (set-get_elem? s.workers (worker_index l lim s k) worker at),
          )
  ]

  -- A call of one of the switches, by the user or by the store itself.
  pub data Switch : Type 0 where
    enabling disabling : Bool → Switch

  abbrev pub switch : Store l → Switch → Store l
  switch s (enabling user) = enable_writes l lim s user
  switch s (disabling user) = disable_writes l lim s user

  abbrev pub switches : Store l → List Switch → Store l
  switches s [] = s
  switches s (c ∷ cs) = switches (switch s c) cs

  -- What the user asked for last.
  abbrev pub user_wants_off : Bool → List Switch → Bool
  user_wants_off off [] = off
  user_wants_off off (enabling user ∷ cs) = user_wants_off (if user then false else off) cs
  user_wants_off off (disabling user ∷ cs) = user_wants_off (user || off) cs

  abbrev pub IsObeyed : Store l → Type 0
  IsObeyed s = s.user_disabled ≡ true → All (λ w. w.enabled ≡ false) s.workers

  pub switch_all-All :
      (on : Bool) (ws : List Worker) → All (λ w. w.enabled ≡ on) (switch_all l lim on ws)
  switch_all-All on [] = tt
  switch_all-All on (w ∷ ws) = (refl, switch_all-All on ws)

  switch-IsObeyed : (s : Store l) (c : Switch) → IsObeyed s → IsObeyed (switch s c)
  unfolding enable_writes disable_writes
  switch-IsObeyed s (enabling true) h = λ off. absurd (cc)
  switch-IsObeyed s (enabling false) h = elim (Bool-cases s.user_disabled) [
    | inl off ↦ simp off (λ _. h off)
    | inr on ↦ simp on (λ off. absurd cc)
  ]
  switch-IsObeyed s (disabling user) h = λ off. switch_all-All false s.workers

  switch-user_wants_off :
      (s : Store l) (c : Switch) (cs : List Switch)
      → user_wants_off (switch s c).user_disabled cs ≡ user_wants_off s.user_disabled (c ∷ cs)
  unfolding enable_writes disable_writes
  switch-user_wants_off s (enabling true) cs = refl
  switch-user_wants_off s (enabling false) cs = elim (Bool-cases s.user_disabled) [
    | inl off ↦ simp off refl
    | inr on ↦ simp on refl
  ]
  switch-user_wants_off s (disabling user) cs = refl

  -- After any sequence of calls of enableWrites and disableWrites, by the user or by the store
  -- itself, `userDisabled` says what the user asked for last, and while it is set no worker takes
  -- writes: a call of the store's own never overrules the user.
  pub switches-IsObeyed :
      (s : Store l) (cs : List Switch)
      → IsObeyed s
      → ((switches s cs).user_disabled ≡ user_wants_off s.user_disabled cs)
        × IsObeyed (switches s cs)
  switches-IsObeyed s [] h = (refl, h)
  switches-IsObeyed s (c ∷ cs) h =
      let rest = switches-IsObeyed (switch s c) cs (switch-IsObeyed s c h) in
      (rest.0 ∙ switch-user_wants_off s c cs, rest.1)
