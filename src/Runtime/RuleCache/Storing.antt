-- ===== src/Runtime/RuleCache/Storing.antt =====
-- What a rule's cached result looks like when it is read again, and which results are kept at all.
use pass_ctrl.Prelude.{
  ℕ, ◌+◌, ◌≤◌, ◌≡◌, ◌≢◌, ◌⊎◌, String, ◌||◌, not, leb_ℤ, some, arith, eq_iff, pos, pos_part, ◌<ℤ◌,
  ◌==◌, false,
}
use pass_ctrl.Assoc.{Assoc}
use pass_ctrl.Value.{Value}
use pass_ctrl.Cache.Duration.{Duration}
use pass_ctrl.Cache.Entry.{Entry, no_response}
use pass_ctrl.Cache.Decision.{DecisionCache, IsDecisionCache}
use pass_ctrl.Runtime.RuleCache.{
  EntryCodec, fresh_entry, decode_entry, store_entry, lookup_rule_cache, rule_cache_entry,
  store_rule_cache,
}

module _ {C : Type 0} (codec : EntryCodec) (cache : DecisionCache C) (now later : ℕ)
    (key outcome reason : String) (exported : Assoc Value) (headers : Assoc String)
    (ttl : Duration) where
  lacks_key : key ≢ "" → (key == "") ≡ false
  lacks_key h = ground (arith, eq_iff key "")

  is_kept :
      pos 0 <ℤ ttl
      → (outcome ≡ "pass") ⊎ (outcome ≡ "fail")
      → (leb_ℤ ttl (pos 0) || not (outcome == "pass" || outcome == "fail")) ≡ false
  is_kept k o = ground (arith, eq_iff outcome "pass", eq_iff outcome "fail")

  -- A result that passes or fails is answered again, by any decision cache that keeps its entries,
  -- up to the end of its time to live: under a key, at a time to live above zero, where the codec
  -- marshals the entry and reads it back as it was.
  pub lookup_rule_cache-store_rule_cache :
      (law : IsDecisionCache cache) (text : String) (asked read : ℕ) (c : C)
      → key ≢ ""
      → pos 0 <ℤ ttl
      → (outcome ≡ "pass") ⊎ (outcome ≡ "fail")
      → now ≢ 0
      → asked ≤ now + pos_part ttl
      → read ≤ now + pos_part ttl
      → codec.marshal (rule_cache_entry now outcome reason exported headers ttl) ≡ some text
      → codec.unmarshal text ≡ some (rule_cache_entry now outcome reason exported headers ttl)
      → (lookup_rule_cache codec
          (some cache)
          asked
          read
          key
          (store_rule_cache codec
            (some cache)
            now
            later
            key
            outcome
            reason
            exported
            headers
            ttl
            c).1).0
        ≡ some (rule_cache_entry now outcome reason exported headers ttl)
  unfolding lookup_rule_cache store_rule_cache store_entry decode_entry fresh_entry
  lookup_rule_cache-store_rule_cache law text asked read c h1 h2 h3 h4 h5 h6 h7 h8 =
      let e : Entry = record {
        decision = text;
        response = no_response;
        stored_at = now;
        expires_at = now + pos_part ttl;
      } in
      rw (lacks_key h1, is_kept h2 h3, h7, law.keeps later asked key e c h4 (omega arith) h5, h8)
        (ground arith)
