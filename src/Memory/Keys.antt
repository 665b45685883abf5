-- ===== src/Memory/Keys.antt =====
-- The keys of emergence/memory/memory_manager.py. The source joins the parts of a key by colons; a
-- key is its parts here, with no space for the older layout that begins with the category.
use emergence_os.Base.{
  ℕ, String, Bool, true, false, ◌&&◌, ◌≡◌, ◌↔◌, Option, none, some, arith, Hashable, ◌==◌, nat_eq,
  string_eq, nat_beq,
}

pub data MemoryCategory : Type 0 where
  working episodic semantic : MemoryCategory

abbrev pub category_code : MemoryCategory → ℕ
category_code working = 0
category_code episodic = 1
category_code semantic = 2

abbrev pub same_category : MemoryCategory → MemoryCategory → Bool
same_category a b = nat_beq (category_code a) (category_code b)

pub same_category_iff : (a b : MemoryCategory) → (same_category a b ≡ true) ↔ (a ≡ b)
same_category_iff a b = ground arith

-- The space of a key, if it has one, its category, the process and the key that the process gave.
pub record MemoryKey : Type 0 where
  pub space : Option String
  pub category : MemoryCategory
  pub process_id : ℕ
  pub key : String

abbrev pub same_space : Option String → Option String → Bool
same_space none none = true
same_space (some a) (some b) = a == b
same_space _ _ = false

pub same_space_iff : (a b : Option String) → (same_space a b ≡ true) ↔ (a ≡ b)
same_space_iff none none = ground arith
same_space_iff (some a) (some b) = ground (arith, string_eq.same_iff a b)
same_space_iff none (some b) = ground arith
same_space_iff (some a) none = ground arith

abbrev pub same_key : MemoryKey → MemoryKey → Bool
same_key a b =
    same_space a.space b.space
    && same_category a.category b.category
    && nat_beq a.process_id b.process_id
    && a.key == b.key

pub same_key_iff : (a b : MemoryKey) → (same_key a b ≡ true) ↔ (a ≡ b)
same_key_iff a b = ground (
  arith,
  same_space_iff a.space b.space,
  same_category_iff a.category b.category,
  nat_eq.same_iff a.process_id b.process_id,
  string_eq.same_iff a.key b.key,
)

instance abbrev pub memory_key_eq : Hashable MemoryKey
memory_key_eq = record { same = same_key; same_iff = same_key_iff }
