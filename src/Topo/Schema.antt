-- ===== src/Topo/Schema.antt =====
-- The topology files of pkg/topo/schema.go.
use fabric_sim.Prelude.{ℕ, ℤ, Bytes, List, [], Bool, Option}

-- GridPosition
pub record GridPosition : Type 0 where
  pub x : ℤ
  pub y : ℤ

-- Port: the numbers are below 2 ^ 32.
pub record Port : Type 0 where
  pub number : ℕ
  pub sdn_number : ℕ
  pub speed : Bytes

pub record Device : Type 0 where
  pub id : Bytes
  pub chassis_id : ℕ
  pub type : Bytes
  pub agent_port : ℕ
  pub stopped : Bool
  pub ports : List Port
  pub grid : Option GridPosition

pub record Link : Type 0 where
  pub src : Bytes
  pub tgt : Bytes
  pub unidirectional : Bool

pub record Nic : Type 0 where
  pub mac : Bytes
  pub ipv4 : Bytes
  pub ipv6 : Bytes
  pub port : Bytes

pub record Host : Type 0 where
  pub id : Bytes
  pub nics : List Nic
  pub grid : Option GridPosition

pub record Topology : Type 0 where
  pub devices : List Device
  pub links : List Link
  pub hosts : List Host

-- &Topology{}
abbrev pub empty_topology : Topology
empty_topology = record { devices = []; links = []; hosts = [] }
