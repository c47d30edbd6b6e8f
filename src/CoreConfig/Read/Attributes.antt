-- ===== src/CoreConfig/Read/Attributes.antt =====
-- When all attributes of a configuration can be read.
use ibex.Base.{◌≡◌, refl, String, All, string_eq, arith}
use ibex.Base.Dict.{Dict}
use ibex.Base.Results.{ok, >>=-eq-ok}
use ibex.CoreConfig.Yaml.{Value}
use ibex.CoreConfig.Read.{known_fields, Config, read_bool, read_int, read_str, read_fields}
use ibex.CoreConfig.Read.Fields.{IsTyped, read_bool-ok, read_int-ok, read_str-ok}

pub read_fields-ok :
    (yml : Dict String Value) (config : Config)
    → read_fields yml ≡ ok config
    → (config.params ≡ yml) × All (IsTyped yml) known_fields
unfolding read_fields
read_fields-ok yml config h0 =
    let (v0, r0, h1) = >>=-eq-ok (read_bool "RV32E" yml) _ h0 in
    let (v1, r1, h2) = >>=-eq-ok (read_str "RV32M" yml) _ h1 in
    let (v2, r2, h3) = >>=-eq-ok (read_str "RV32B" yml) _ h2 in
    let (v3, r3, h4) = >>=-eq-ok (read_str "RV32ZC" yml) _ h3 in
    let (v4, r4, h5) = >>=-eq-ok (read_str "RegFile" yml) _ h4 in
    let (v5, r5, h6) = >>=-eq-ok (read_bool "BranchTargetALU" yml) _ h5 in
    let (v6, r6, h7) = >>=-eq-ok (read_bool "WritebackStage" yml) _ h6 in
    let (v7, r7, h8) = >>=-eq-ok (read_bool "ICache" yml) _ h7 in
    let (v8, r8, h9) = >>=-eq-ok (read_bool "ICacheECC" yml) _ h8 in
    let (v9, r9, h10) = >>=-eq-ok (read_bool "ICacheScramble" yml) _ h9 in
    let (v10, r10, h11) = >>=-eq-ok (read_bool "BranchPredictor" yml) _ h10 in
    let (v11, r11, h12) = >>=-eq-ok (read_bool "DbgTriggerEn" yml) _ h11 in
    let (v12, r12, h13) = >>=-eq-ok (read_bool "SecureIbex" yml) _ h12 in
    let (v13, r13, h14) = >>=-eq-ok (read_bool "PMPEnable" yml) _ h13 in
    let (v14, r14, h15) = >>=-eq-ok (read_int "PMPGranularity" yml) _ h14 in
    let (v15, r15, h16) = >>=-eq-ok (read_int "PMPNumRegions" yml) _ h15 in
    let (v16, r16, h17) = >>=-eq-ok (read_int "MHPMCounterNum" yml) _ h16 in
    let (v17, r17, h18) = >>=-eq-ok (read_int "MHPMCounterWidth" yml) _ h17 in
    (
      ground arith,
      (
        (read_bool-ok "RV32E" yml).0 (v0, r0),
        (
          (read_str-ok "RV32M" yml).0 (v1, r1),
          (
            (read_str-ok "RV32B" yml).0 (v2, r2),
            (
              (read_str-ok "RV32ZC" yml).0 (v3, r3),
              (
                (read_str-ok "RegFile" yml).0 (v4, r4),
                (
                  (read_bool-ok "BranchTargetALU" yml).0 (v5, r5),
                  (
                    (read_bool-ok "WritebackStage" yml).0 (v6, r6),
                    (
                      (read_bool-ok "ICache" yml).0 (v7, r7),
                      (
                        (read_bool-ok "ICacheECC" yml).0 (v8, r8),
                        (
                          (read_bool-ok "ICacheScramble" yml).0 (v9, r9),
                          (
                            (read_bool-ok "BranchPredictor" yml).0 (v10, r10),
                            (
                              (read_bool-ok "DbgTriggerEn" yml).0 (v11, r11),
                              (
                                (read_bool-ok "SecureIbex" yml).0 (v12, r12),
                                (
                                  (read_bool-ok "PMPEnable" yml).0 (v13, r13),
                                  (
                                    (read_int-ok "PMPGranularity" yml).0 (v14, r14),
                                    (
                                      (read_int-ok "PMPNumRegions" yml).0 (v15, r15),
                                      (
                                        (read_int-ok "MHPMCounterNum" yml).0 (v16, r16),
                                        ((read_int-ok "MHPMCounterWidth" yml).0 (v17, r17), tt),
                                      ),
                                    ),
                                  ),
                                ),
                              ),
                            ),
                          ),
                        ),
                      ),
                    ),
                  ),
                ),
              ),
            ),
          ),
        ),
      ),
    )

pub read_fields_total :
    (yml : Dict String Value)
    → All (IsTyped yml) known_fields
    → (config : Config) × (read_fields yml ≡ ok config)
unfolding read_fields
read_fields_total yml
      (
        t0,
        (
          t1,
          (
            t2,
            (
              t3,
              (
                t4,
                (
                  t5,
                  (t6, (t7, (t8, (t9, (t10, (t11, (t12, (t13, (t14, (t15, (t16, (t17, _)))))))))))),
                ),
              ),
            ),
          ),
        ),
      ) =
    let (v0, r0) = (read_bool-ok "RV32E" yml).1 t0 in
    let (v1, r1) = (read_str-ok "RV32M" yml).1 t1 in
    let (v2, r2) = (read_str-ok "RV32B" yml).1 t2 in
    let (v3, r3) = (read_str-ok "RV32ZC" yml).1 t3 in
    let (v4, r4) = (read_str-ok "RegFile" yml).1 t4 in
    let (v5, r5) = (read_bool-ok "BranchTargetALU" yml).1 t5 in
    let (v6, r6) = (read_bool-ok "WritebackStage" yml).1 t6 in
    let (v7, r7) = (read_bool-ok "ICache" yml).1 t7 in
    let (v8, r8) = (read_bool-ok "ICacheECC" yml).1 t8 in
    let (v9, r9) = (read_bool-ok "ICacheScramble" yml).1 t9 in
    let (v10, r10) = (read_bool-ok "BranchPredictor" yml).1 t10 in
    let (v11, r11) = (read_bool-ok "DbgTriggerEn" yml).1 t11 in
    let (v12, r12) = (read_bool-ok "SecureIbex" yml).1 t12 in
    let (v13, r13) = (read_bool-ok "PMPEnable" yml).1 t13 in
    let (v14, r14) = (read_int-ok "PMPGranularity" yml).1 t14 in
    let (v15, r15) = (read_int-ok "PMPNumRegions" yml).1 t15 in
    let (v16, r16) = (read_int-ok "MHPMCounterNum" yml).1 t16 in
    let (v17, r17) = (read_int-ok "MHPMCounterWidth" yml).1 t17 in
    (
      record {
        params = yml;
        rv32e = v0;
        rv32m = v1;
        rv32b = v2;
        rv32zc = v3;
        reg_file = v4;
        branch_target_alu = v5;
        writeback_stage = v6;
        icache = v7;
        icache_ecc = v8;
        icache_scramble = v9;
        branch_predictor = v10;
        dbg_trigger_en = v11;
        secure_ibex = v12;
        pmp_enable = v13;
        pmp_granularity = v14;
        pmp_num_regions = v15;
        mhpm_counter_num = v16;
        mhpm_counter_width = v17;
      },
      rw (r0, r1, r2, r3, r4, r5, r6, r7, r8, r9, r10, r11, r12, r13, r14, r15, r16, r17) refl,
    )
