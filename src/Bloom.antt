-- ===== src/Bloom.antt =====
-- valuektbloomfilter_GEN_.go: the Bloom filter of keys and timestamps. The hash of
-- github.com/spaolacci/murmur3 and the floating-point arithmetic that sizes a filter are not part
-- of the repository. A float64 is its 64 bits; the scratch bytes are all written anew before
-- each hash, so that they are an argument of the hash and no state.
pub mod Rounds
pub mod Answers
pub mod Message
pub mod Tests
use valuestore.Base.{
  ℕ, zero, suc, ◌+◌, ◌*◌, ◌/◌, ◌%◌, ◌^◌, Bool, true, false, List, [], ◌∷◌, ◌++◌, Option, none, some,
  bit_and, bit_or, ◌==◌, if◌then◌else◌, length, get_elem?, set, replicate, take, drop,
}
use valuestore.Base.Bytes.{Bytes, put_word, get_word}
use valuestore.Base.Overwrite.{overwrite, copy_into}
use valuestore.LocMap.{Key}

-- What the filter takes from elsewhere: `murmur3.Sum128`, and of `n` and `p` the values of
-- `uint32(math.Ceil(m/8))` and `uint32(math.Ceil(m / float64(n) * math.Log(2) / 4))`.
pub record Sizing : Type 0 where
  pub sum128 : Bytes → ℕ × ℕ
  pub size : ℕ → ℕ → ℕ
  pub rounds : ℕ → ℕ → ℕ

abbrev pub ktbf_header_bytes : ℕ
ktbf_header_bytes = 20

pub record Filter : Type 0 where
  pub n : ℕ
  pub p : ℕ
  pub salt : ℕ
  pub m : ℕ
  pub k_div4 : ℕ
  pub bits : Bytes

-- What the filter has of a pull-replication message.
pub record Msg : Type 0 where
  pub header : Bytes
  pub body : Bytes

-- `uint32(salt) << 16`
abbrev pub salted : ℕ → ℕ
salted salt = salt * 2 ^ 16 % 2 ^ 32

-- `ktbf.bits[bit/8] |= 1 << (bit % 8)` for `bit = word % ktbf.m`; `none` is a panic, of a
-- division by zero or an index out of range.
unfoldable pub set_bit : ℕ → Bytes → ℕ → Option Bytes
set_bit m bits word = if m == 0 then none else elim (get_elem? bits (word % m / 8)) [
  | none ↦ none
  | some b ↦ some (set bits (word % m / 8) (bit_or b (2 ^ (word % m % 8))))
]

-- `ktbf.bits[bit/8]&(1<<(bit%8)) != 0`
unfoldable pub test_bit : ℕ → Bytes → ℕ → Option Bool
test_bit m bits word = if m == 0 then none else elim (get_elem? bits (word % m / 8)) [
  | none ↦ none
  | some b ↦ some (if bit_and b (2 ^ (word % m % 8)) == 0 then false else true)
]

-- The scratch bytes of a round: salt and round, both halves of the key, the timestamp.
abbrev pub scratch_of : ℕ → ℕ → Key → ℕ → Bytes
scratch_of salt i k timestamp =
    put_word 4 (bit_or salt i) ++ put_word 8 k.key_a ++ put_word 8 k.key_b ++ put_word 8 timestamp

-- The four words of 32 bits that a round takes of its hash.
abbrev pub words_of : ℕ × ℕ → List ℕ
words_of (h1, h2) = h1 / 2 ^ 32 % 2 ^ 32 ∷ h1 % 2 ^ 32 ∷ h2 / 2 ^ 32 % 2 ^ 32 ∷ h2 % 2 ^ 32 ∷ []

-- The four writes of a round.
unfoldable pub set_bits : ℕ → List ℕ → Bytes → Option Bytes
set_bits m [] bits = some bits
set_bits m (word ∷ words) bits = elim (set_bit m bits word) [
  | none ↦ none
  | some after ↦ set_bits m words after
]

-- The four tests of a round, which return at the first bit that is not set.
unfoldable pub test_bits : ℕ → List ℕ → Bytes → Option Bool
test_bits m [] bits = some true
test_bits m (word ∷ words) bits = elim (test_bit m bits word) [
  | none ↦ none
  | some false ↦ some false
  | some true ↦ test_bits m words bits
]

module _ (sz : Sizing) where
  -- newValueKTBloomFilter
  unfoldable pub new_filter : ℕ → ℕ → ℕ → Filter
  new_filter n p salt = record {
    n = n;
    p = p;
    salt = salted salt;
    m = sz.size n p * 8 % 2 ^ 32;
    k_div4 = sz.rounds n p;
    bits = replicate (sz.size n p) 0;
  }

  -- `for i := ktbf.kDiv4; i > 0; i--` of add
  unfoldable pub add_rounds : ℕ → ℕ → ℕ → Key → ℕ → Bytes → Option Bytes
  add_rounds zero m salt k timestamp bits = some bits
  add_rounds (suc i) m salt k timestamp bits =
      elim (set_bits m (words_of (sz.sum128 (scratch_of salt (suc i) k timestamp))) bits) [
        | none ↦ none
        | some after ↦ add_rounds i m salt k timestamp after
      ]

  -- valueKTBloomFilter.add
  unfoldable pub add : Filter → Key → ℕ → Option Filter
  add f k timestamp = elim (add_rounds f.k_div4 f.m f.salt k timestamp f.bits) [
    | none ↦ none
    | some bits ↦ some (record f { bits = bits })
  ]

  -- the same loop of mayHave
  unfoldable pub test_rounds : ℕ → ℕ → ℕ → Key → ℕ → Bytes → Option Bool
  test_rounds zero m salt k timestamp bits = some true
  test_rounds (suc i) m salt k timestamp bits =
      elim (test_bits m (words_of (sz.sum128 (scratch_of salt (suc i) k timestamp))) bits) [
        | none ↦ none
        | some false ↦ some false
        | some true ↦ test_rounds i m salt k timestamp bits
      ]

  -- valueKTBloomFilter.mayHave
  unfoldable pub may_have : Filter → Key → ℕ → Option Bool
  may_have f k timestamp = test_rounds f.k_div4 f.m f.salt k timestamp f.bits

  -- newValueKTBloomFilterFromMsg, of a header that is long enough
  unfoldable pub from_msg : Msg → ℕ → Filter
  from_msg prm o =
      let n = get_word 8 o prm.header in
      let p = get_word 8 (o + 8) prm.header in
      record {
        n = n;
        p = p;
        salt = salted (get_word 2 (o + 16) prm.header);
        m = sz.size n p * 8 % 2 ^ 32;
        k_div4 = sz.rounds n p;
        bits = prm.body;
      }

-- valueKTBloomFilter.toMsg; `uint16(ktbf.salt>>16)` of a salt of 32 bits
unfoldable pub to_msg : Filter → Msg → ℕ → Msg
to_msg f prm o = record {
  header =
      overwrite (o + 16) (put_word 2 (f.salt / 2 ^ 16))
        (overwrite (o + 8) (put_word 8 f.p) (overwrite o (put_word 8 f.n) prm.header));
  body = copy_into prm.body f.bits;
}

-- valueKTBloomFilter.reset
unfoldable pub reset : Filter → ℕ → Filter
reset f salt = record f { salt = salted salt; bits = replicate (length f.bits) 0 }
