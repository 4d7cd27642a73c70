-- ===== src/Worker.antt =====
-- The loop of controller_worker in dstx/src/daemon.c, once for each controller: the virtual device
-- (Virtual) and the requests and interventions that a round serves (Requests).
pub mod Virtual
pub mod Requests
