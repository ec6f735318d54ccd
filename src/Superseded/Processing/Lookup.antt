-- ===== src/Superseded/Processing/Lookup.antt =====
-- What deprecated/processing.c finds of what it has stored.
use kernel_bypass_group_proj.Base.{
  ℕ, suc, ◌*◌, ◌≤◌, ◌<◌, ◌≡◌, ◌≢◌, refl, ◌∙◌, ap, Bytes, List, [], ◌∷◌, ◌++◌, none, some, arith,
  length, lt→ltb, inl, inr, Option-cases, ==_refl,
}
use kernel_bypass_group_proj.Api.Keys.{drop}
use kernel_bypass_group_proj.Api.Signature.{signature}
use kernel_bypass_group_proj.Superseded.DynamicArray.{
  Array, Memory, init_array, insert_array, elements,
}
use kernel_bypass_group_proj.Superseded.DynamicArray.Grow.{
  IsPlentiful, IsArray, insert_array-elements, init_array-IsArray,
}
use kernel_bypass_group_proj.Superseded.Processing.{
  HashMap, MapLaws, Registry, normalize, normalize_key, insert_client, insert_client_info_to_map,
  get_from_map, set_table,
}

drop-append : (k rest : Bytes) (c : ℕ) → drop (suc (length k)) (k ++ c ∷ rest) ≡ rest
drop-append [] rest c = refl
drop-append (a ∷ k) rest c = drop-append k rest c

-- Written twice, a key leaves the array as it is.
normalize-normalize : (old text : Bytes) → normalize (normalize old text) text ≡ normalize old text
normalize-normalize old text =
    ap (λ rest. text ++ 0 ∷ rest) (drop-append text (drop (suc (length text)) old) 0)

not_empty-cons : (xs : List ℕ) → xs ≢ [] → (x : ℕ) × (rest : List ℕ) × (xs ≡ x ∷ rest)
not_empty-cons [] ne = absurd (ne refl)
not_empty-cons (x ∷ rest) ne = (x, rest, refl)

module _ {A : Type 0} (h : HashMap) (mem : Memory A) (max_key_length : ℕ) where
  -- The clients that wait for what stands in the key array.
  unfoldable pub waiting : Registry h.Map A → h.Map → Bytes → List A
  waiting s map text = elim (h.get map (normalize s.normalized_key text)) [
    | none ↦ []
    | some p ↦ elements (s.tables p)
  ]

  normalize_key_fits :
      (s : Registry h.Map A) (key : Bytes) (id : ℕ)
      → length (signature id key) < max_key_length
      → normalize_key h mem max_key_length s key id
        ≡ some (record s { normalized_key = normalize s.normalized_key (signature id key) })
  unfolding normalize_key
  normalize_key_fits s key id fits = rw (normalize_key, lt→ltb _ _ fits) refl

  get_from_map_finds :
      (s : Registry h.Map A) (map : h.Map) (key : Bytes) (id uninit p : ℕ)
      → length (signature id key) < max_key_length
      → s.client_info_map ≡ some map
      → h.get map (normalize s.normalized_key (signature id key)) ≡ some p
      → get_from_map h mem max_key_length s key id uninit
        ≡ some (p, record s { normalized_key = normalize s.normalized_key (signature id key) })
  unfolding get_from_map
  get_from_map_finds s map key id uninit p fits em eg =
      rw (get_from_map, normalize_key_fits s key id fits, em, eg) refl

  -- with the key written
  abbrev keyed : Registry h.Map A → Bytes → Registry h.Map A
  keyed s text = record s { normalized_key = normalize s.normalized_key text }

  -- a table that is there already, with one more client
  abbrev extended : Registry h.Map A → h.Map → ℕ → Array A → Registry h.Map A
  extended s map p a = record (set_table h mem max_key_length s p a) { client_info_map = some map }

  insert_client-old :
      (s : Registry h.Map A) (map : h.Map) (x : A) (p : ℕ) (a : Array A)
      → s.client_info_map ≡ some map
      → h.get map s.normalized_key ≡ some p
      → insert_array mem (s.tables p) x ≡ some a
      → insert_client h mem max_key_length s x ≡ some (extended s map p a)
  unfolding insert_client
  insert_client-old s map x p a em eg ea =
      rw (insert_client, em, eg, ea)
        (ap (λ o. some (record (set_table h mem max_key_length s p a) { client_info_map = o })) em)

  -- a table of its own for a new key
  abbrev registered : Registry h.Map A → h.Map → ℕ → List ℕ → Array A → Registry h.Map A
  registered s map p pool a = record (set_table h mem max_key_length s p a) {
    client_info_map = some (h.set map s.normalized_key p);
    pool = pool;
  }

  insert_client-new :
      (s : Registry h.Map A) (map : h.Map) (x : A) (p : ℕ) (pool : List ℕ) (a : Array A)
      → s.client_info_map ≡ some map
      → h.get map s.normalized_key ≡ none
      → s.pool ≡ p ∷ pool
      → insert_array mem (init_array mem 1) x ≡ some a
      → insert_client h mem max_key_length s x ≡ some (registered s map p pool a)
  unfolding insert_client
  insert_client-new s map x p pool a em eg ep ea = rw (insert_client, em, eg, ep, ea) refl

  insert_keyed :
      (s t : Registry h.Map A) (key : Bytes) (id : ℕ) (x : A)
      → length (signature id key) < max_key_length
      → insert_client h mem max_key_length (keyed s (signature id key)) x ≡ some t
      → insert_client_info_to_map h mem max_key_length s key id x ≡ some t
  unfolding insert_client_info_to_map
  insert_keyed s t key id x fits e =
      rw (insert_client_info_to_map, normalize_key_fits s key id fits) e

  -- Every table has room for one element more.
  unfoldable pub HasRoom : Registry h.Map A → h.Map → ℕ → Type 0
  HasRoom s map limit =
      (text : Bytes) (p : ℕ)
      → h.get map text ≡ some p
      → IsArray 1 (s.tables p) × ((s.tables p).used * 2 ≤ limit)

  -- For a hash map that finds what was stored last under an unchanged key, a map that has been
  -- created, enough memory, tables that have room for one more client, and a signature that fits
  -- its array: insert_client_info_to_map succeeds, and get_from_map with the same key and request
  -- id then gives a table, whole, of the clients that waited before, in order, with the new one
  -- behind them; that is one new table where the key was not found.
  pub get_from_map-insert :
      (s : Registry h.Map A) (map : h.Map) (limit : ℕ) (key : Bytes) (id uninit : ℕ) (x : A)
      → MapLaws h
      → IsPlentiful mem limit
      → 1 ≤ limit
      → s.client_info_map ≡ some map
      → s.pool ≢ []
      → HasRoom s map limit
      → length (signature id key) < max_key_length
      → (s1 : Registry h.Map A) × (s2 : Registry h.Map A) × (p : ℕ) × (insert_client_info_to_map h
            mem max_key_length s key id x
          ≡ some s1)
        × (get_from_map h mem max_key_length s1 key id uninit ≡ some (p, s2))
        × (elements (s2.tables p) ≡ waiting s map (signature id key) ++ x ∷ [])
        × ((s2.tables p).used ≤ length (s2.tables p).array)
  unfolding waiting HasRoom
  get_from_map-insert s map limit key id uninit x laws plenty one em pool room fits =
      elim (Option-cases (h.get map (normalize s.normalized_key (signature id key)))) [
        | inl eg ↦
            let text = signature id key in
            let (p, rest, ep) = not_empty-cons s.pool pool in
            let (a, ea, kept, _, el) =
              insert_array-elements mem limit plenty 1 (init_array mem 1) x
                (init_array-IsArray mem limit plenty 1 (omega arith) one) (omega arith) in
            let s1 = registered (keyed s text) map p rest a in
            (
              s1,
              keyed s1 text,
              p,
              insert_keyed s s1 key id x fits
                  (insert_client-new (keyed s text) map x p rest a em eg ep ea),
              get_from_map_finds s1 _ key id uninit p fits refl (
                  ap (h.get (h.set map (normalize s.normalized_key text) p))
                    (normalize-normalize s.normalized_key text)
                  ∙ laws.get-set map _ p),
              rw (==_refl p, waiting, eg) el,
              rw (==_refl p) (omega (arith, kept.fits, kept.bounded)),
            )
        | inr (p, eg) ↦
            let text = signature id key in
            let (is, used) = room _ p eg in
            let (a, ea, kept, _, el) =
              insert_array-elements mem limit plenty 1 (s.tables p) x is used in
            let s1 = extended (keyed s text) map p a in
            (
              s1,
              keyed s1 text,
              p,
              insert_keyed s s1 key id x fits (insert_client-old (keyed s text) map x p a em eg ea),
              get_from_map_finds s1 map key id uninit p fits refl
                  (ap (h.get map) (normalize-normalize s.normalized_key text) ∙ eg),
              rw (==_refl p, waiting, eg) el,
              rw (==_refl p) (omega (arith, kept.fits, kept.bounded)),
            )
      ]
