-- ===== src/Bolt/Memory.antt =====
-- Buckets in memory: the parameter of Bolt.antt can be met, and the examples run on it.
use xsync.Prelude.{ℕ, suc, refl, []}
use xsync.Prelude.Assoc.{
  Assoc, lookup, insert, remove, from_key, IsAscending, insert-IsAscending, remove-IsAscending,
}
use xsync.Bolt.{Bolt}

pub record Bucket (V : Type 0) : Type 0 where
  pub pairs : Assoc V
  pub sorted : IsAscending pairs
  pub last : ℕ

instance abbrev pub memory : Bolt
memory = record {
  Bucket = Bucket;
  create = record { pairs = []; sorted = tt; last = 0 };
  get = λ b k. lookup k b.pairs;
  put = λ b k v. record {
    pairs = insert k v b.pairs;
    sorted = insert-IsAscending k v b.pairs b.sorted;
    last = b.last;
  };
  delete = λ b k. record {
    pairs = remove k b.pairs;
    sorted = remove-IsAscending k b.pairs b.sorted;
    last = b.last;
  };
  entries = λ b. b.pairs;
  seek = λ b k. from_key k b.pairs;
  sequence = λ b. b.last;
  next_sequence = λ b. record b { last = suc b.last };
  ascending = λ b. b.sorted;
  get_entries = λ b k. refl;
  seek_entries = λ b k. refl;
  entries-create = refl;
  entries-put = λ b k v. refl;
  entries-delete = λ b k. refl;
  entries-next = λ b. refl;
  sequence-next = λ b. refl;
  sequence-put = λ b k v. refl;
  sequence-delete = λ b k. refl;
}
