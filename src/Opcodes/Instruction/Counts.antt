-- ===== src/Opcodes/Instruction/Counts.antt =====
-- The operands of src/opcodes.zig that hold a count plus one, with 0 for "up to the top".
use zua.Prelude.{
  ℕ, suc, ◌+◌, ◌*◌, ◌/◌, ◌≤◌, ◌<◌, ◌≡◌, refl, Option, none, some, leb, not, ◌^◌, if◌then◌else◌,
  arith, ◌⊎◌, ◌↔◌, inl, inr, Bool-cases, ltb, ltb→lt,
}
use zua.Opcodes.{call, return, vararg, setlist}
use zua.Opcodes.Instruction.{Abc, max_c, abc_init}
use zua.Opcodes.Instruction.Forms.{
  call_init, call_get_num_params, call_get_num_return_values, call_set_num_return_values,
  return_init, encode_count, decode_count, num_values_in_batch, return_get_num_return_values,
  return_set_num_return_values, var_arg_init, set_list_init,
  is_batch_number_stored_in_next_instruction, fields_per_flush, num_values_to_flush_batch_num,
}

-- The counts that fit a `u9` with one added; `none` is "all of them".
abbrev pub IsCount : Option ℕ → Type 0
IsCount none = Unit
IsCount (some n) = n < 511

-- The field that holds a count.
abbrev count_field : Option ℕ → ℕ
count_field none = 0
count_field (some n) = n + 1

encode_count-eq : (n : Option ℕ) → IsCount n → encode_count n ≡ some (count_field n)
encode_count-eq none h = refl
encode_count-eq (some n) h = ground arith

decode-count_field : (n : Option ℕ) → decode_count (count_field n) ≡ n
decode-count_field none = refl
decode-count_field (some n) = ground arith

-- A call that is made for counts of parameters and results below 511 keeps its register and yields
-- both counts again; setting the count of results anew keeps the parameters and yields the new count.
pub call_counts :
    (reg params : ℕ) (results results' : Option ℕ)
    → params < 511
    → IsCount results
    → IsCount results'
    → (i i' : Abc) × (call_init reg params results ≡ some i)
      × (i.a ≡ reg)
      × (call_get_num_params i ≡ some params)
      × (call_get_num_return_values i ≡ results)
      × (call_set_num_return_values i results' ≡ some i')
      × (call_get_num_return_values i' ≡ results')
      × (call_get_num_params i' ≡ some params)
unfolding call_init call_get_num_params call_get_num_return_values call_set_num_return_values
call_counts reg params results results' hp h h' = (
  abc_init call reg (params + 1) (count_field results),
  abc_init call reg (params + 1) (count_field results'),
  ground (arith, encode_count-eq results h),
  refl,
  ground arith,
  decode-count_field results,
  ground (arith, encode_count-eq results' h'),
  decode-count_field results',
  ground arith,
)

-- A return or a vararg that is made for a count below 511 keeps its register and yields the count
-- again, and so does a return whose count is set anew.
pub return_counts :
    (reg : ℕ) (results results' : Option ℕ)
    → IsCount results
    → IsCount results'
    → (i i' j : Abc) × (return_init reg results ≡ some i)
      × (i.a ≡ reg)
      × (return_get_num_return_values i ≡ results)
      × (return_set_num_return_values i results' ≡ some i')
      × (return_get_num_return_values i' ≡ results')
      × (var_arg_init reg results ≡ some j)
      × (j.a ≡ reg)
      × (return_get_num_return_values j ≡ results)
unfolding return_init return_get_num_return_values return_set_num_return_values var_arg_init
return_counts reg results results' h h' = (
  abc_init return reg (count_field results) 0,
  abc_init return reg (count_field results') 0,
  abc_init vararg reg (count_field results) 0,
  ground (arith, encode_count-eq results h),
  refl,
  decode-count_field results,
  ground (arith, encode_count-eq results' h'),
  decode-count_field results',
  ground (arith, encode_count-eq results h),
  refl,
  decode-count_field results,
)

-- The counts that leave a `u9` with one added.
abbrev pub Exceeds : Option ℕ → Type 0
Exceeds none = ⊥
Exceeds (some n) = 511 ≤ n

encode_count-none : (n : Option ℕ) → Exceeds n → encode_count n ≡ none
encode_count-none none h = absurd h
encode_count-none (some n) h = ground arith

IsCount-cases : (n : Option ℕ) → IsCount n ⊎ Exceeds n
IsCount-cases none = inl tt
IsCount-cases (some n) = elim (Bool-cases (ltb n 511)) [
  | inl e ↦ inl (ltb→lt n 511 e)
  | inr e ↦ inr (ground arith)
]

IsCount-Exceeds : (n : Option ℕ) → IsCount n → Exceeds n → ⊥
IsCount-Exceeds none h x = x
IsCount-Exceeds (some n) h x = omega (arith, h, x)

-- What is made out of a count, where that may fail.
made_or_overflow :
    {A : Type 0} (make : ℕ → A) (n : Option ℕ)
    → (elim (encode_count n) [ none ↦ none | some v ↦ some (make v) ] ≡ none) ↔ Exceeds n
made_or_overflow make n = elim (IsCount-cases n) [
  | inl h ↦ rw (encode_count-eq n h) (λ e. absurd (present e), λ x. absurd (IsCount-Exceeds n h x))
  | inr h ↦ (λ _. h, λ _. rw (encode_count-none n h) refl)
]
  where
    present : some (make (count_field n)) ≡ none → ⊥
    present e = cc

call_init-overflow :
    (reg params : ℕ) (results : Option ℕ)
    → (call_init reg params results ≡ none) ↔ ((511 ≤ params) ⊎ Exceeds results)
unfolding call_init
call_init-overflow reg params results = elim (IsCount-cases results) [
  | inr h ↦ (λ _. inr h, λ _. rw (encode_count-none results h, call_init) refl)
  | inl h ↦ elim (Bool-cases (ltb params 511)) [
    | inl p ↦ (
      λ e. absurd (missing h (ltb→lt params 511 p) e),
      λ x. absurd (elim x [
        | inl q ↦ omega (arith, q, ltb→lt params 511 p)
        | inr q ↦ IsCount-Exceeds results h q
      ]),
    )
    | inr p ↦ (λ _. inl (ground arith), λ _. ground (arith, encode_count-eq results h))
  ]
]
  where
    missing : IsCount results → params < 511 → call_init reg params results ≡ none → ⊥
    missing h p e = ground (arith, encode_count-eq results h)

-- Making a call panics exactly if the count of its parameters or that of its results is 511 or more, and making a
-- return or a vararg panics exactly if the count of its values is.
pub count_overflow :
    (reg params : ℕ) (counts : Option ℕ)
    → ((call_init reg params counts ≡ none) ↔ ((511 ≤ params) ⊎ Exceeds counts))
      × ((return_init reg counts ≡ none) ↔ Exceeds counts)
      × ((var_arg_init reg counts ≡ none) ↔ Exceeds counts)
unfolding return_init var_arg_init
count_overflow reg params counts =
    (call_init-overflow reg params counts, made_or_overflow _ counts, made_or_overflow _ counts)

-- The counts to store that fit a `u9`, and the operand for them.
abbrev pub IsStored : Option ℕ → Type 0
IsStored none = Unit
IsStored (some n) = n < 512

abbrev pub stored_count : Option ℕ → ℕ
stored_count none = 0
stored_count (some n) = n

num_values_in_batch-eq : (o : Option ℕ) → IsStored o → num_values_in_batch o ≡ some (stored_count o)
num_values_in_batch-eq none h = refl
num_values_in_batch-eq (some n) h = ground arith

-- A SETLIST that flushes up to element `n + 1`: its batch number times 50 covers the elements and one
-- batch less does not; the C operand is the batch number if that is at most 511, and otherwise 0,
-- and the number is stored in the next instruction. The B operand is the count to store, 0 for "to the top".
pub set_list_batches :
    (reg n : ℕ) (to_store : Option ℕ)
    → suc n < 2 ^ 64
    → IsStored to_store
    → (i : Abc) × (batch : ℕ) × (set_list_init reg (suc n) to_store ≡ some i)
      × (num_values_to_flush_batch_num (suc n) ≡ some batch)
      × (n < batch * fields_per_flush)
      × (batch * fields_per_flush ≤ n + fields_per_flush)
      × (i.b ≡ stored_count to_store)
      × (is_batch_number_stored_in_next_instruction i ≡ not (leb batch max_c))
      × (i.c ≡ (if leb batch max_c then batch else 0))
unfolding set_list_init num_values_to_flush_batch_num is_batch_number_stored_in_next_instruction
set_list_batches reg n to_store hn h = (
  abc_init setlist reg (stored_count to_store) (if leb (n / 50 + 1) max_c then n / 50 + 1 else 0),
  n / 50 + 1,
  set_list_eq,
  flush_eq,
  omega arith,
  omega arith,
  refl,
  ground arith,
  refl,
)
  where
    batch_eq : num_values_in_batch to_store ≡ some (stored_count to_store)
    batch_eq = num_values_in_batch-eq to_store h

    flush_eq : num_values_to_flush_batch_num (suc n) ≡ some (n / 50 + 1)
    flush_eq = ground arith

    set_list_eq :
        set_list_init reg (suc n) to_store
        ≡ some (
            abc_init setlist reg
              (stored_count to_store)
              (if leb (n / 50 + 1) max_c then n / 50 + 1 else 0))
    set_list_eq = ground (arith, batch_eq)
