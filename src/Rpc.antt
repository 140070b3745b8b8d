-- ===== src/Rpc.antt =====
-- rpc/mprpcchannel.cpp, rpc/mprpccontroller.cpp and rpc/rpcprovider.cpp: calls over the network.
pub mod State
pub mod Channel
pub mod Provider
pub mod Methods
pub mod Framing
pub mod Tests
