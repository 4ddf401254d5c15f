-- ===== src/Storage/Regions.antt =====
-- Regions of storage: a region that is apart from two neighbours, and the empty region.
use hardware_bitcoin_wallet.Base.{
  ℕ, ◌+◌, ◌≤◌, ◌≡◌, ◌∙◌, ap, sym, inl, inr, arith, List, [], ◌∷◌, length,
}
use hardware_bitcoin_wallet.Program.{ok}
use hardware_bitcoin_wallet.Storage.{Partition, Platform, IsMemory, Apart}

-- What is apart from a region is apart from both parts of it.
pub Apart-cut :
    (p : Partition) (a n m : ℕ) (q : Partition) (b k : ℕ)
    → Apart p a (n + m) q b k
    → Apart p a n q b k × Apart p (a + n) m q b k
Apart-cut p a n m q b k (inl ne) = (inl ne, inl ne)
Apart-cut p a n m q b k (inr (inl le)) = (inr (inl (omega arith)), inr (inl (omega arith)))
Apart-cut p a n m q b k (inr (inr le)) = (inr (inr le), inr (inr (omega arith)))

-- What is apart from a region is apart from any part of it.
pub Apart-inside :
    (p : Partition) (a n a' n' : ℕ) (q : Partition) (b m : ℕ)
    → a ≤ a'
    → a' + n' ≤ a + n
    → Apart p a n q b m
    → Apart p a' n' q b m
Apart-inside p a n a' n' q b m low high (inl ne) = inl ne
Apart-inside p a n a' n' q b m low high (inr (inl le)) = inr (inl (omega arith))
Apart-inside p a n a' n' q b m low high (inr (inr le)) = inr (inr (omega arith))

module _ {Device : Type 0} (platform : Platform Device) (memory : IsMemory platform) where
  empty_of :
      (d : Device) (p : Partition) (a : ℕ) (bs : List ℕ)
      → length bs ≡ 0
      → memory.Stores d p a bs
      → memory.Stores d p a []
  empty_of d p a [] len s = s
  empty_of d p a (b ∷ bs) len s = absurd (omega arith)

  pub Stores-empty :
      (d : Device) (p : Partition) (a : ℕ) → a ≤ memory.size p → memory.Stores d p a []
  Stores-empty d p a room =
      let (bs, len, _, s) = memory.filled d p a 0 (omega arith) in empty_of d p a bs len s

  -- Reading `n` bytes where `n` bytes are stored.
  pub read-stored :
      (d : Device) (p : Partition) (a n : ℕ) (bs : List ℕ)
      → length bs ≡ n
      → a + n ≤ memory.size p
      → memory.Stores d p a bs
      → platform.non_volatile_read p a n d ≡ (ok bs, d)
  read-stored d p a n bs len room s =
      ap (λ m. platform.non_volatile_read p a m d) (sym len)
      ∙ memory.read d p a bs (omega (arith, len)) s
