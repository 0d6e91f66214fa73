-- ===== src/SshInstall/Enrolment/Refused.antt =====
-- A PutInstance that fails leaves no record of an instance that had none.
use ulcer.Prelude.{◌≡◌, Text, Bytes, Option, none, some, arith}
use ulcer.Result.{Result, Error, ok, err}
use ulcer.Model.{Instance}
use ulcer.Platform.{Platform, Refusal, conflicts, fails}
use ulcer.Store.Keys.{instance_key}
use ulcer.Store.Txn.{set, update, finish}
use ulcer.Store.Instances.{put_instance}
use ulcer.SshInstall.Enrolment.Rollback.{IsAbsent}

module _ ⦃p : Platform⦄ where
  open p use {Db, entry, refusal as commit_refusal, later, encode_instance}

  module _ (id : Text) (later-keeps : (c : Db) → IsAbsent id c → IsAbsent id (later c)) where
    finish_err :
        (d w : Db) (r : Option Refusal) {e : Error}
        → (finish {0} tt d w r).0 ≡ err e
        → IsAbsent id d
        → IsAbsent id (finish {0} tt d w r).1
    unfolding finish
    finish_err d w none q h = absurd (ground arith)
    finish_err d w (some conflicts) q h = later-keeps d h
    finish_err d w (some (fails f)) q h = h

    commit_err :
        (d : Db) (r : Result (Unit {0} × Db)) {e : Error}
        → (elim r as (λ _. Result (Unit {0}) × Db) [
          | err f ↦ (err f, d)
          | ok (a, w) ↦ finish a d w (commit_refusal d w)
        ]).0
          ≡ err e
        → IsAbsent id d
        → IsAbsent id
            (elim r as (λ _. Result (Unit {0}) × Db) [
              | err f ↦ (err f, d)
              | ok (a, w) ↦ finish a d w (commit_refusal d w)
            ]).1
    commit_err d (ok (a, w)) q h = finish_err d w (commit_refusal d w) q h
    commit_err d (err f) q h = h

    encoded_err :
        (k : Text) (d : Db) (r : Result Bytes) {e : Error}
        → (elim r as (λ _. Result (Unit {0}) × Db) [
          | err f ↦ (err f, d)
          | ok b ↦ update (set k b) d
        ]).0
          ≡ err e
        → IsAbsent id d
        → IsAbsent id
            (elim r as (λ _. Result (Unit {0}) × Db) [
              | err f ↦ (err f, d)
              | ok b ↦ update (set k b) d
            ]).1
    unfolding update
    encoded_err k d (ok b) q h = commit_err d (set k b d) q h
    encoded_err k d (err f) q h = h

    pub put_instance-IsAbsent :
        (i : Instance) (d : Db) {e : Error}
        → (put_instance i d).0 ≡ err e
        → IsAbsent id d
        → IsAbsent id (put_instance i d).1
    unfolding put_instance
    put_instance-IsAbsent i d q h = encoded_err (instance_key i.id) d (encode_instance i) q h
