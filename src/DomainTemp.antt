-- ===== src/DomainTemp.antt =====
-- lib/src/domain_temp.c: how often each domain was crawled of late.
use aduana.Common.{
  ℕ, zero, suc, ◌+◌, Bool, true, false, not, ◌&&◌, ◌==◌, if◌then◌else◌, List, [], ◌∷◌, map,
}

-- What the code uses of `float`.
pub record Float : Type 1 where
  pub Carrier : Type 0
  pub nought : Carrier
  pub one : Carrier
  -- `x < y`
  pub less : Carrier → Carrier → Bool
  -- `x <= y`
  pub leq : Carrier → Carrier → Bool
  -- `x + 1.0` and `x * y`
  pub plus_one : Carrier → Carrier
  pub times : Carrier → Carrier → Carrier
  -- `1.0 - (t - time)/window`
  pub decay : Carrier → Carrier → Carrier → Carrier
  -- The float of a bit pattern.
  pub of_bits : ℕ → Carrier
  -- `(float)time`
  pub of_time : ℕ → Carrier

module _ (float : Float) where
  pub record DomainTempEntry : Type 0 where
    pub hash : ℕ
    pub temp : float.Carrier

  pub record DomainTemp : Type 0 where
    pub table : List DomainTempEntry
    pub time : float.Carrier
    pub window : float.Carrier

  -- `calloc` of `length` entries.
  empty_table : ℕ → List DomainTempEntry
  empty_table zero = []
  empty_table (suc length) = record { hash = 0; temp = float.nought } ∷ empty_table length

  unfoldable pub domain_temp_new : ℕ → float.Carrier → DomainTemp
  unfolding empty_table
  domain_temp_new length window = record {
    table = empty_table length;
    time = float.nought;
    window = window;
  }

  unfoldable pub domain_temp_update : DomainTemp → float.Carrier → DomainTemp
  domain_temp_update dh t =
      let k = float.decay t dh.time dh.window in
      let k' = if float.less k float.nought then float.nought else k in
      record dh {
        table =
            map (λ (entry : DomainTempEntry). record entry { temp = float.times entry.temp k' })
              dh.table;
        time = t;
      }

  -- The loop of `domain_temp_heat` from entry `i` on: the table, `found`, `temp_min` and `i_min`.
  heat_loop :
      ℕ
      → List DomainTempEntry
      → ℕ
      → float.Carrier
      → ℕ
      → List DomainTempEntry × Bool × float.Carrier × ℕ
  heat_loop hash [] i temp_min i_min = ([], false, temp_min, i_min)
  heat_loop hash (entry ∷ entries) i temp_min i_min =
      let colder = float.less entry.temp temp_min in
      let (rest, found, temp, j) =
        heat_loop hash entries (i + 1) (if colder then entry.temp else temp_min)
          (if colder then i else i_min) in
      if entry.hash == hash
      then (record entry { temp = float.plus_one entry.temp } ∷ entries, true, temp_min, i_min)
      else (entry ∷ rest, found, temp, j)

  -- `table[i] = entry`
  put_entry : ℕ → DomainTempEntry → List DomainTempEntry → List DomainTempEntry
  put_entry i entry [] = []
  put_entry zero entry (_ ∷ entries) = entry ∷ entries
  put_entry (suc i) entry (e ∷ entries) = e ∷ put_entry i entry entries

  -- `table[0].temp`; a table without entries has no first one, and the code reads behind it.
  first_temp : List DomainTempEntry → float.Carrier
  first_temp [] = float.nought
  first_temp (entry ∷ _) = entry.temp

  unfoldable pub domain_temp_heat : DomainTemp → ℕ → DomainTemp
  unfolding heat_loop put_entry first_temp
  domain_temp_heat dh hash =
      let (table, found, temp_min, i_min) = heat_loop hash dh.table 0 (first_temp dh.table) 0 in
      if not found && float.less temp_min float.one
      then record dh { table = put_entry i_min (record { hash = hash; temp = float.one }) table }
      else record dh { table = table }

  get_loop : ℕ → List DomainTempEntry → float.Carrier
  get_loop hash [] = float.nought
  get_loop hash (entry ∷ entries) =
      let rest = get_loop hash entries in if entry.hash == hash then entry.temp else rest

  unfoldable pub domain_temp_get : DomainTemp → ℕ → float.Carrier
  unfolding get_loop
  domain_temp_get dh hash = get_loop hash dh.table
