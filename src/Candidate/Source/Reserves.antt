-- ===== src/Candidate/Source/Reserves.antt =====
-- How the source reads the reserves of the pools: knight/src/candidate/candidate_source.cpp,
-- `request_pool_snapshots`.
use dex_knight.Prelude.{
  ℕ, ◌≡◌, refl, sym, subst, inl, inr, Bytes, List, [], ◌∷◌, map, some, arith, All, >>=-eq-some,
  Option-cases, Expected, ok, unexpected,
}
use dex_knight.External.{External}
use dex_knight.Utils.Fields.{json_string, parse_hex_bytes, parse_to_json}
use dex_knight.Evm.Contracts.{Pool}
use dex_knight.Candidate.Types.{PoolSnapshot}
use dex_knight.Candidate.Filter.{pool_snapshot_from_json}
use dex_knight.Builder.RestClient
use dex_knight.Builder.RestClient.{Server, Traffic, request_chain_call, request_snapshot}
use dex_knight.Candidate.Source.{read_reserves, reserves_payload, request_pool_snapshots}

-- The builder's answer to a call of `getReserves` on the pool at a block has these reserves.
pub record IsRead (x : External) (server : Server) (block : ℕ) (snapshot : PoolSnapshot)
    : Type 0 where
  pub traffic : Traffic
  pub raw : Bytes
  pub json : x.Value
  pub answered :
      (request_chain_call server x (reserves_payload x server snapshot.pool block) traffic).0
      ≡ ok raw
  pub parsed : parse_to_json x raw ≡ some json
  pub read : pool_snapshot_from_json x snapshot.pool json ≡ some snapshot

module _ (x : External) (server : Server) (block : ℕ) where
  pool_snapshot-pool :
      (pool : Pool) (json : x.Value) (snapshot : PoolSnapshot)
      → pool_snapshot_from_json x pool json ≡ some snapshot
      → snapshot.pool ≡ pool
  unfolding pool_snapshot_from_json
  pool_snapshot-pool pool json snapshot e =
      let (object, o, e1) = >>=-eq-some (x.as_object json) _ e in
      let (raw_result, r, e2) = >>=-eq-some (json_string x object "result") _ e1 in
      let (result, p, e3) = >>=-eq-some (parse_hex_bytes x raw_result) _ e2 in
      let (reserves, d, e4) = >>=-eq-some (x.decode_pair result) _ e3 in ground arith

  read_reserves-IsRead :
      (pool : Pool) (t : Traffic) (w : Expected Bytes RestClient.Error) (snapshot : PoolSnapshot)
      → (request_chain_call server x (reserves_payload x server pool block) t).0 ≡ w
      → read_reserves x server pool w ≡ some snapshot
      → (snapshot.pool ≡ pool) × IsRead x server block snapshot
  unfolding read_reserves
  read_reserves-IsRead pool t (unexpected error) snapshot answered e = cc
  read_reserves-IsRead pool t (ok raw) snapshot answered e =
      elim (Option-cases (parse_to_json x raw)) [
        | inl no_json ↦ absurd (ground arith)
        | inr (json, parsed) ↦
            let read : pool_snapshot_from_json x pool json ≡ some snapshot = ground arith in
            let same = pool_snapshot-pool pool json snapshot read in
            (
              same,
              record {
                traffic = t;
                raw = raw;
                json = json;
                answered =
                    subst
                      (λ p.
                        (request_chain_call server x (reserves_payload x server p block) t).0
                        ≡ ok raw)
                      (sym same) answered;
                parsed = parsed;
                read =
                    subst (λ p. pool_snapshot_from_json x p json ≡ some snapshot) (sym same) read;
              },
            )
      ]

  pub request_pool_snapshots-IsRead :
      (pools : List Pool) (t : Traffic) (snapshots : List PoolSnapshot)
      → (request_pool_snapshots x server block pools t).0 ≡ some snapshots
      → (map (λ s. s.pool) snapshots ≡ pools) × All (IsRead x server block) snapshots
  unfolding request_pool_snapshots
  request_pool_snapshots-IsRead [] t snapshots e = ground arith
  request_pool_snapshots-IsRead (pool ∷ pools) t snapshots e =
      let w = request_chain_call server x (reserves_payload x server pool block) t in
      let rest = request_pool_snapshots x server block pools w.1 in
      elim (Option-cases (read_reserves x server pool w.0)) [
        | inl unread ↦ absurd (ground arith)
        | inr (snapshot, read) ↦ elim (Option-cases rest.0) [
          | inl failed ↦ absurd (ground arith)
          | inr (others, f) ↦
              let same : snapshot ∷ others ≡ snapshots = ground arith in
              let first = read_reserves-IsRead pool t w.0 snapshot refl read in
              let behind = request_pool_snapshots-IsRead pools w.1 others f in
              subst (λ l. (map (λ s. s.pool) l ≡ pool ∷ pools) × All (IsRead x server block) l) same
                ((λ i. first.0 i ∷ behind.0 i), (first.1, behind.1))
        ]
      ]
