-- ===== src/SoupTcp/Stuck.antt =====
-- A length with the sign bit set, in the loop of vr/vr_rt/src/vr/market/rt/asx/execution_link.cpp.
