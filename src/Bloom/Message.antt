-- ===== src/Bloom/Message.antt =====
-- valuektbloomfilter_GEN_.go: a filter sent in a pull-replication message.
use valuestore.Base.{ℕ, ◌+◌, ◌*◌, ◌/◌, ◌%◌, ◌^◌, ◌<◌, ◌≡◌, sym, [], ◌∷◌, arith, All}
use valuestore.Base.Bytes.{Bytes, get_word}
use valuestore.Base.Overwrite.{Fields, ReadsAs}
use valuestore.Bloom.{Sizing, Filter, from_msg, salted}

-- The fields of a filter as newValueKTBloomFilter and reset leave them.
pub record IsMade (sz : Sizing) (f : Filter) : Type 0 where
  pub n_word : f.n < 2 ^ 64
  pub p_word : f.p < 2 ^ 64
  pub salt_word : f.salt < 2 ^ 32
  pub salt_high : f.salt % 2 ^ 16 ≡ 0
  pub m_sized : f.m ≡ sz.size f.n f.p * 8 % 2 ^ 32
  pub k_sized : f.k_div4 ≡ sz.rounds f.n f.p

-- What toMsg puts into the header.
abbrev pub fields_of : Filter → ℕ → Fields
fields_of f o = (o, (8, f.n)) ∷ (o + 8, (8, f.p)) ∷ (o + 16, (2, f.salt / 2 ^ 16)) ∷ []

-- Where the fields and the bits are read, so is the filter.
pub from_msg-ReadsAs :
    (sz : Sizing) (f : Filter) (header : Bytes) (o : ℕ)
    → IsMade sz f
    → All (ReadsAs header) (fields_of f o)
    → from_msg sz (record { header = header; body = f.bits }) o ≡ f
unfolding from_msg
from_msg-ReadsAs sz f header o made (n, (p, (high, u))) =
    let salt : salted (get_word 2 (o + 16) header) ≡ f.salt =
      rw high (omega (arith, made.salt_word, made.salt_high)) in
    rw (n, p, salt) (λ i. record f { m = sym made.m_sized i; k_div4 = sym made.k_sized i })
